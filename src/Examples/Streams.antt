-- ===== src/Examples/Streams.antt =====
-- Tests of streams and of the normalizer of terminal output.
use loommux.Prelude.{
  List, codes, ◌++◌, ◌≡◌, ◌∷◌, text_eq, Text, Option, [], false, refl, some, none,
}
use loommux.Connections.Streams.{close_stream-Describes, close, open_stream-Describes, Describes}
use loommux.Terminal.{text, csi, normalize}
use loommux.Terminal.Plain.{normalize-normalize, IsPrintable}
use loommux.Connections.{close_stream, Address, address_eq, open_stream, SessionPresence}
use loommux.Terminal.Documents.{
  Piece, sequence, printed, command, control, escape, two_bytes, one_byte, st,
}

abbrev silent : SessionPresence
silent = record {
  first_seen_at = 0;
  open_streams = 0;
  closed_at = none;
  process_bound = false;
  open_addresses = [];
}

abbrev local_port : Option Address
local_port = some (codes "127.0.0.1", 4000)

silent-Describes : Describes silent []
silent-Describes = record { count = refl; addresses = refl }

close_stream-Describes_example :
    Describes
      (close_stream (open_stream silent local_port) local_port 8)
      (close local_port (local_port ∷ []))
    × ((close_stream (open_stream silent local_port) local_port 8).closed_at
        ≡ elim (close local_port (local_port ∷ [])) [
          | [] ↦ some 8
          | _ ↦ (open_stream silent local_port).closed_at
        ])
unfolding text_eq address_eq
close_stream-Describes_example =
    close_stream-Describes (open_stream silent local_port) (local_port ∷ []) local_port 8
      (open_stream-Describes silent [] local_port silent-Describes) refl

abbrev red : Text
red = 0x1b ∷ codes "[31mred"

normalize-normalize_example :
    IsPrintable (normalize csi red).1
    × (normalize text (normalize csi red).1 ≡ (text, (normalize csi red).1))
normalize-normalize_example = normalize-normalize csi red

abbrev colored : List Piece
colored =
    sequence two_bytes (codes "31") b'm'
    ∷ printed (codes "red")
    ∷ command one_byte (codes "0;title") st
    ∷ control 0x0d
    ∷ escape [] b'7'
    ∷ []

-- The first chunk ends within the control sequence.
abbrev colored_chunks : List Text
colored_chunks =
    (0x1b ∷ codes "[3")
    ∷ codes "1mred"
    ∷ ((0x9d ∷ codes "0;title") ++ 0x1b ∷ 0x5c ∷ 0x0d ∷ 0x1b ∷ b'7' ∷ [])
    ∷ []
