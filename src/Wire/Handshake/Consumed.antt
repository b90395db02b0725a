-- ===== src/Wire/Handshake/Consumed.antt =====
-- The server's side of the handshake never gives bytes back to the stream.
use emvp_thesis.Base.{ℕ, refl}
use emvp_thesis.Base.Action.{Action}
use emvp_thesis.Base.Consumes.{Consumes, Consumes-keep, consuming}
use emvp_thesis.Wire.Error.{CodecError}
use emvp_thesis.Wire.Frame.Consumed.{bytes_left, reported-Consumes, read_exact-Consumes}
use emvp_thesis.Wire.Handshake.{
  Duplex, ClientHello, read_client_hello, on_input, on_output, answer_hello, server_handshake,
}
use emvp_thesis.Wire.Stream.{Stream, Sink}

read_client_hello-Consumes : Consumes bytes_left read_client_hello
unfolding read_client_hello
read_client_hello-Consumes = search (consuming, reported-Consumes, read_exact-Consumes)

abbrev pub duplex_left : Duplex → ℕ
duplex_left d = bytes_left d.input

on_input-Consumes :
    {A : Type 0} (m : Action Stream CodecError A)
    → Consumes bytes_left m
    → Consumes duplex_left (on_input m)
on_input-Consumes m h = record { shrinks = λ d. h.shrinks d.input }

on_output-Consumes :
    {A : Type 0} (m : Action Sink CodecError A) → Consumes duplex_left (on_output m)
on_output-Consumes m = Consumes-keep (on_output m) (λ d. refl)

answer_hello-Consumes : (hello : ClientHello) → Consumes duplex_left (answer_hello hello)
unfolding answer_hello
answer_hello-Consumes hello = search (consuming, on_output-Consumes) depth 10

pub server_handshake-Consumes : Consumes duplex_left server_handshake
unfolding server_handshake
server_handshake-Consumes =
    search (consuming, on_input-Consumes, read_client_hello-Consumes, answer_hello-Consumes)
