-- ===== src/Lib.antt =====
-- Verification library of the workspace of encrypted matrix-vector products: the prime field
-- (prime-field-layer), the wire protocol (emvp-network) and its use by the server and the client
-- (server, client), the parameters and the online steps of the protocol (emvp), and the permutations of
-- trapdoor matrices (trapdoor-matrices).
--
-- Parts and files:
-- - Base: lists with native lengths, little-endian words, checked sums and products, vectors with a
--   capacity, and the monad of actions with errors in which stateful code is written.
-- - Field (prime-field-layer/src): Montgomery constants, the operators of `FieldElement` and its
--   canonical four-byte encoding. The const generic MODULUS is an argument; the theorems hold for
--   every odd modulus above 2 that fits 32 bits, prime or not.
-- - Emvp (emvp/src/view.rs, emvp/src/params.rs): the borrowed views that a decoder hands out, and the
--   parameters of a protocol instance: their dimensions, the comparison of powers on limbs
--   (Emvp.Params.Power), the security checks (Emvp.Params.Security) and the search (Emvp.Params.Search).
-- - Emvp.Protocol (emvp/src/protocol.rs): the answer of the server to an encrypted query, its decoding and the
--   scaling of a query's blocks. The branches on parallel work run the same loops and are left out.
-- - Trapdoor (trapdoor-matrices/src/permutation.rs, error.rs): permutations, their application, and the
--   rejection sampler. The random generator is the list of the words that it still delivers.
-- - Wire.Error, Wire.Stream, Wire.Frame (emvp-network/src/error.rs, frame.rs): codes, the reader and the
--   writer that the codecs are generic over, headers, and the payload reader that is bounded by a frame.
-- - Wire.Plan (plan.rs, workspace.rs): checks that the plans share, and the growth of workspaces.
-- - Wire.Upload, Wire.Evaluate, Wire.Products (plan.rs, workspace.rs, decode.rs, views.rs, encode.rs): each message with
--   its plan, workspace, decoder, views and writer, and the function that runs them
--   (`Session::read_upload` and `Session::read_evaluate` of server/src/session.rs, and the client's part
--   for products in client/src/session.rs).
-- - Wire.Messages (messages.rs): the accepted identifiers and the error response. RoundTrip is about what
--   the writers make, and Opened and Received about what the readers accept. The latter rest on
--   Wire.Frame.Delivered and Wire.Frame.Parses: what a reader took from its bytes when it returns.
-- - Wire.Handshake (handshake.rs): both ends of the version and modulus check; Agreement starts from a
--   hello, Exact from any ten bytes.
-- - Server (server/src/session.rs, failure.rs): the checks of a decoded upload set and of a decoded
--   evaluation request, and why a request is refused. A hash set is the list of what was inserted.
-- - Server.Session (server/src/session.rs): the state of a connection and the handlers of its frames. The
--   answer engine with its workspaces, and the texts of errors, are the parameter `Services`; a loaded
--   phase is the list of its matrices with their identifiers. Server.Session.Frames has the handlers, and
--   LoadOnce and Numbering what holds of the phase. Server.Session.Serve is `serve_connection`, with the
--   handshake and a loop on fuel; fuel above the number of bytes to come is enough.
-- - Client (client/src/session.rs, error.rs): the checks of the acknowledgment and of the products, and in
--   Client.Session the upload and a round of evaluation on a stream that is read and one that is written. A
--   panic is an error of its own (`Stop`); Client.Session.Round carries what is verified to the whole round.
-- - Examples: concrete messages at which the theorems apply.
--
-- How code is modelled: a reader is the list of bytes that it still delivers and how it ends; a
-- writer is what was written and how much it still takes. A function that can fail is an action from
-- a state to a result and a state. usize and u64 are 64 bits wide. A decoder's slice of the arena is
-- its start and count. Whether an allocation succeeds, and what capacity beyond its size it then
-- has, are functions of the size that the caller gives. Loops run on the number of their rounds: the
-- five rounds of the Montgomery constant, the 64 bits of an exponent, and one chunk of 4096 elements
-- for each element at most. The loop over divisors of n runs n rounds at most, the search the ranks
-- of its budget. Each file Consumed shows that a reader gives no bytes back.
--
-- Not modelled: the run of the demo client, the protocol's keys, the secret code, the other trapdoor
-- matrices, bulk and vectorised kernels, transforms, the extension field, the GPU backend, threads,
-- sockets, texts of error messages and the command-line programs.
pub mod Base
pub mod Client
pub mod Emvp
pub mod Examples
pub mod Field
pub mod Server
pub mod Trapdoor
pub mod Wire
