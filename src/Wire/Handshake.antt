-- ===== src/Wire/Handshake.antt =====
-- The connection handshake: `emvp-network/src/handshake.rs`.
pub mod Agreement
pub mod Consumed
pub mod Exact
use emvp_thesis.Base.{
  ℕ, ◌+◌, List, [], ◌∷◌, Bool, true, false, not, ◌&&◌, ◌==◌, if◌then◌else◌, length, get_elem?, take,
  drop,
}
use emvp_thesis.Base.Action.{Action, Result, ok, err, pure, fail, ensure, ◌>>=◌, ◌>>◌}
use emvp_thesis.Base.Words.{from_le_bytes}
use emvp_thesis.Wire.Error.{
  CodecError, invalid_magic, invalid_handshake_status, HandshakeError, codec, rejected,
  unsupported_version, unsupported_modulus,
}
use emvp_thesis.Wire.Stream.{Stream, Sink, read_exact, write_all, map_read_error}
use emvp_thesis.Wire.Frame.{
  magic, protocol_version, protocol_modulus, reported, write_u8, write_u16, write_u32,
}

-- HELLO_BYTES
abbrev pub hello_bytes : ℕ
hello_bytes = 4 + 2 + 4

pub record ClientHello : Type 0 where
  pub version : ℕ
  pub modulus : ℕ

-- One end of a connection, which reads and writes.
pub record Duplex : Type 0 where
  pub input : Stream
  pub output : Sink

unfoldable pub write_client_hello : ℕ → ℕ → Action Sink CodecError (Unit {0})
write_client_hello version modulus = do write_all magic; write_u16 version; write_u32 modulus

-- Array equality of bytes.
unfoldable pub same_bytes : List ℕ → List ℕ → Bool
same_bytes [] [] = true
same_bytes [] (y ∷ ys) = false
same_bytes (x ∷ xs) [] = false
same_bytes (x ∷ xs) (y ∷ ys) = (x == y) && same_bytes xs ys

unfoldable pub read_client_hello : Action Stream CodecError ClientHello
read_client_hello = do
  hello ← λ s. reported (read_exact hello_bytes s)
  ensure (same_bytes (take 4 hello) magic) invalid_magic
  pure (record {
    version = from_le_bytes (take 2 (drop 4 hello));
    modulus = from_le_bytes (take 4 (drop 6 hello));
  })

unfoldable pub write_server_hello : Bool → Action Sink CodecError (Unit {0})
write_server_hello accepted = write_u8 (if accepted then 1 else 0)

unfoldable pub handshake_status : ℕ → Action Stream CodecError Bool
handshake_status status =
    if status == 1
    then pure true
    else if status == 0
    then pure false
    else fail (invalid_handshake_status status)

unfoldable pub read_server_hello : Action Stream CodecError Bool
read_server_hello = do
  status ← λ s. reported (read_exact 1 s)
  handshake_status (from_le_bytes status)

-- A codec's error as the handshake's: `From<CodecError> for HandshakeError`.
abbrev pub as_codec : {A : Type 0} → Result CodecError A → Result HandshakeError A
as_codec (ok a) = ok a
as_codec (err e) = err (codec e)

abbrev pub on_input : {A : Type 0} → Action Stream CodecError A → Action Duplex HandshakeError A
on_input m d = let (x, s) = m d.input in (as_codec x, record d { input = s })

abbrev pub on_output : {A : Type 0} → Action Sink CodecError A → Action Duplex HandshakeError A
on_output m d = let (x, s) = m d.output in (as_codec x, record d { output = s })

unfoldable pub client_handshake : Action Duplex HandshakeError (Unit {0})
client_handshake = do
  on_output (write_client_hello protocol_version protocol_modulus)
  accepted ← on_input read_server_hello
  ensure accepted rejected

-- The checks of the hello, each with its answer.
unfoldable pub answer_hello : ClientHello → Action Duplex HandshakeError (Unit {0})
answer_hello hello =
    if not (hello.version == protocol_version)
    then (do on_output (write_server_hello false); fail (unsupported_version hello.version))
    else if not (hello.modulus == protocol_modulus)
    then (do on_output (write_server_hello false); fail (unsupported_modulus hello.modulus))
    else on_output (write_server_hello true)

unfoldable pub server_handshake : Action Duplex HandshakeError (Unit {0})
server_handshake = do hello ← on_input read_client_hello; answer_hello hello
