-- ===== src/Lib.antt =====
-- A model of imap-go, an IMAP4rev1/rev2 library in Go, and what it shows of the code. Paths are
-- from the root of the repository.
--
-- The parts and how they interact. The wire layer reads and writes the tokens of the protocol; the
-- server and the client are built on it. A connection holds a state machine that says which
-- commands are allowed when. A command names messages by a number set, and the memory server keeps
-- the messages in mailboxes, which it shows to the sessions. A tracker tells the sessions of a
-- mailbox what changed in it.
--
-- Prelude holds the shared helpers. Tests and case lemmas (Prelude.Tests), lists over the native
-- numbers (Prelude.Lists), texts as lists of byte values with the ASCII part of strings.EqualFold
-- and strings.ToUpper (Prelude.Texts), results with an error (Prelude.Result), strings.Split and
-- strings.TrimSpace (Prelude.Split), int64 (Prelude.Int), memory and Go's maps with texts for keys (Prelude.Maps).
-- Wire is about wire/decoder.go and wire/encoder.go. Wire.Chars has the classes of bytes
-- (isAtomChar, NeedsQuoting, NeedsLiteral), Wire.Reader the stream as the bytes not yet read and
-- the reading monad, Wire.Decoder the methods Read... of Decoder, Wire.ListReader ReadList,
-- ReadFlags, DiscardLine and DiscardN, Wire.Encoder the methods of Encoder over the text written
-- so far. The other modules of Wire have the proofs.
-- Auth is about the package auth: the table of mechanisms and what a server answers (Auth), and a
-- module for each of auth/plain, auth/login, auth/crammd5, auth/xoauth2 and auth/oauthbearer;
-- Auth.Simple is about auth/external and auth/anonymous. A mechanism is passed by value and
-- returned. The authenticator is a parameter, and so is the digest of CRAM-MD5.
-- Extension is about extension/registry.go. The order in which a range visits a map is not the
-- program's to choose, so what each range visits is a parameter, of which the theorems ask that it
-- be the entries of the map, each once.
-- Imap is about imap.go (Imap.ConnState) and numset.go (Imap.NumSet, Imap.NumSet.Parse). SeqSet
-- and UIDSet have the same methods, so they are one record NumSet. Imap.CapSet is about CapSet of
-- capability.go, a map from texts to true. Imap.Search has the search criteria of search.go.
-- State is about state/transitions.go (State.Transitions) and state/machine.go (State.Machine). A
-- hook is a function on a world of its own, so that what a hook does besides its error is visible.
-- The lock of Machine is not modelled: each method holds it for its whole run, and Transition runs
-- all its hooks under it.
-- MemServer is about server/memserver/message.go (MemServer.Message) and
-- server/memserver/mailbox.go (MemServer.Mailbox). A mailbox is passed by value and returned.
-- MemServer.User is about server/memserver/user.go: entries of names that lead to mailboxes on a
-- heap; MemServer.Session about what a session of server/memserver/session.go does with them, a
-- user's data behind a pointer; MemServer.Pattern about the patterns of LIST in mailbox.go, with
-- the delimiter a byte; MemServer.Search about SearchMessages and matchesCriteria, with times and
-- the headers of a message given by parameters.
-- Server is about server/tracker.go and the writers of server/writers.go that it calls
-- (Server.Tracker). The trackers of mailboxes and sessions point at each other, so they stand on a
-- heap, where a pointer is a number; a method runs as one step, though the source takes its locks
-- one after the other. Server.Dispatch is about server/dispatch.go: the table of handlers and the
-- split of a command line; Server.Dispatch.Route about dispatch up to the call of the handler.
-- Server.Commands.Search is about parseSearchCriteria of
-- server/commands/search.go, a reader over the wire layer whose result MemServer.Search takes; the
-- parser of dates is a parameter. Server.Commands.Fetch is about the parser of items in
-- server/commands/fetch.go, with the options of fetch.go in Imap.Fetch, and Server.Commands.Sets
-- about the arguments of STORE, COPY and FETCH.
-- Tests has runs at concrete inputs.
--
-- Bounds and fuel. The make of a slice for a literal panics past the longest slice of a
-- 64-bit system; the model gives that panic as an outcome of its own, makeslice_panic, which ends the
-- reading as an error does. Values of type uint32 and uint64 are native numbers, and the wrap-around is
-- written out where the code adds. Loops over lists and over the stream are structural. The loop
-- of ReadList, whose element reader is any function, runs on fuel, one unit for each byte of the
-- stream, and running out of it is an error of its own, which a reader of elements that reads at
-- least a byte before it succeeds rules out, as that of ReadFlags does. The loop of parseSearchCriteria has one unit for each byte of the text
-- and one more; the sort of Resolve one for each extension. The loop of parseFetchBodySection that
-- looks for the end of a partial range runs on fuel that the caller gives, since no fuel is enough.
--
-- Not modelled: goroutines, sockets, TLS and locks; the text of dates, which package time makes;
-- the extensions, the client and the handlers of commands but for the parsers named above; iteration orders of maps, where the
-- result does not depend on them.
mod Prelude
pub mod Extension
pub mod Wire
pub mod Imap
pub mod State
pub mod MemServer
pub mod Server
pub mod Auth
mod Tests
