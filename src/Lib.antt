-- ===== src/Lib.antt =====
-- Verification of the ProximaX Sirius Chain SDK for Go.
--
-- The SDK builds transactions, serialises and signs them, maps the answers of a node to structures
-- and keeps subscriptions over a websocket. A transaction is written as a flatbuffer by the table
-- builders of transactions/, and sdk/sdk_schema.go reads the fields of that flatbuffer again, in the
-- order of a schema of sdk/transaction_schema.go, which gives the bytes of the protocol. They are
-- signed, hashed or embedded in an aggregate by sdk/transaction_model.go. The websocket client of
-- sdk/websocket registers callbacks in stores, subscribes at the node, and routes what the node
-- sends to the callbacks.
--
-- Base has the libraries' names, Boolean tests, lists measured by native numbers, bits, and
-- `Result`: a value, an error or a panic of Go. Base/Text trims bytes and cuts them into lines. Word
-- has byte order, slices and copies.
--
-- Schema is sdk/sdk_schema.go: `serialize` is `schema.serialize`, `find_vector`, `find_param` and
-- the others keep their names; Schema/Definitions has the schemas. Schema/Format says what a
-- finished flatbuffer holds, from the published format: an object is a list of slots, `finished`
-- tests that a buffer holds one, and `wire` is what is to be read off it. The flatbuffers package is
-- a parameter `finished_bytes`, from an object to its buffer. Buffers and its children are the
-- setters of transactions/*.go as operations on the slots.
--
-- Transaction is the shared part of sdk/transaction_model.go: `AbstractTransaction`,
-- `generateVectors` and `buildVectors`, with `following_deadline` for the panic of `generateVectors`
-- on a nil deadline, and Transaction/Sizes and Transaction/Entities for the
-- constants and Transaction/Header for the 122 bytes that all transactions begin with. Each
-- transaction has a module with its record, constructors, `size` (`Size`), `object` and
-- `generate_bytes` (`generateBytes`), and `body`, the layout of what follows its header.
-- Transaction/Signing has `createTransactionHash`, `signTransactionWith` and
-- `toAggregateTransactionBytes`; keys and hash functions are parameters, and its children follow the
-- copies that these make into a buffer, and Transaction/Signing/Cosigning has
-- `signTransactionWithCosignatures` and `signCosignatureTransaction`. Transaction/Responses has the
-- information of a response, the states of a transaction and the version word taken apart;
-- Transaction/Modifications and Transaction/Messages map modifications and messages.
--
-- Transaction/AccountProperties and Transaction/ModifyMetadata have the three kinds each of the
-- account property and of the metadata transaction. Client is what sdk/sdk.go makes of these:
-- `IsTransaction` is the interface `Transaction`, Client/Instances fills it, Client/Builders has the
-- makers (`NewTransferTransaction` of the client is `client_new_transfer_transaction`), and
-- `modify_transaction` sets their fee.
--
-- Account has the addresses of sdk/account_model.go, their checksum and printed form;
-- Account/Responses maps responses about accounts, of sdk/account_internal.go and
-- sdk/websocket_model.go.
--
-- Info has the infos of namespaces, mosaics, metadata, contracts and blocks that sdk/*_internal.go
-- make of responses, and in Info/Resolver sdk/resolver.go, for which the requests to a node are
-- parameters.
--
-- Network is the configuration of sdk/network_model.go: `unmarshal_binary` reads it line by line, as
-- a buffered reader of 4096 bytes gives the lines, and `marshal_binary` prints it. Its text is
-- ASCII. Network/Entities has the supported entities, with jsoniter as a parameter.
--
-- Uint64 is sdk/sdk_internal.go with the numbers of sdk/sdk_model.go; Asset has the identifiers,
-- mosaics and properties of sdk/mosaic_model.go, sdk/mosaic_internal.go, sdk/namespace_model.go and
-- sdk/namespace_internal.go; Namespace has their names and paths (Namespace/Parts cuts a name at its
-- dots); Secret is sdk/secret.go; Encoding is what is used of encoding/hex and encoding/base32.
--
-- Websocket/Subscribers has the stores of sdk/websocket/subscribers and
-- Websocket/Subscribers/Contract what they promise, as a step relation; Websocket/Handlers the
-- handlers of sdk/websocket/handlers, Websocket/Client the client, its router and its publisher. The
-- client's state has what was written to the connection; a write succeeds by a parameter. What the
-- mappers make of a message is an argument, an error included, and so is the order in which its
-- callbacks finish. Operations of the client run one at a time, so that handling a message and
-- unsubscribing after it are one step. Websocket/Client/Blocks routes
-- messages about blocks, and Websocket/Client/Listening is the loop of `Listen`, a step for every
-- read that returns and every tick of the timer.
--
-- Machine integers are naturals with their wrap-around written out. The walk of a schema recurs on
-- the schema, and loops recur on their lists; only the decoder of base32 runs on fuel, as much as
-- its text is long, since each group of digits takes a character at least. The capacity of a buffer is its
-- length, and a deadline, where there is one, is not before 1970.
--
-- Not modelled: the REST services, JSON, text output, the generated getters, key pairs and
-- encryption, dialling, and the mapping of each kind of transaction from a response.
--
-- Tests has a writer of flatbuffers and the theorems at concrete values.
pub mod Base
pub mod Word
pub mod Schema
pub mod Buffers
pub mod Encoding
pub mod Uint64
pub mod Account
pub mod Asset
pub mod Info
pub mod Network
pub mod Secret
pub mod Namespace
pub mod Transaction
pub mod Client
pub mod Websocket
pub mod Tests
