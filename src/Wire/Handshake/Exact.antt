-- ===== src/Wire/Handshake/Exact.antt =====
-- Which ten bytes the server accepts as a hello, and which it takes for another protocol.
use emvp_thesis.Base.{ℕ, List, ◌++◌}
use emvp_thesis.Wire.Stream.{Ending, Sink, extend}
use emvp_thesis.Wire.Handshake.{Duplex}

module _ (rest : List ℕ) (ending : Ending) (sink : Sink) where
  -- A connection on which `bytes` arrive next.
  abbrev pub offered : List ℕ → Duplex
  offered bytes = record {
    input = record { bytes = bytes ++ rest; ending = ending };
    output = sink;
  }

  -- The connection after ten bytes were read and `written` was written.
  abbrev pub answered : List ℕ → Duplex
  answered written = record {
    input = record { bytes = rest; ending = ending };
    output = extend sink written;
  }

  abbrev pub untouched : Duplex
  untouched = record { input = record { bytes = rest; ending = ending }; output = sink }
