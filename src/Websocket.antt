-- ===== src/Websocket.antt =====
-- sdk/websocket: the client that subscribes to the notifications of a node.
pub mod Subscribers
pub mod Handlers
pub mod Client
