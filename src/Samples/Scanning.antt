-- ===== src/Samples/Scanning.antt =====
-- Instances for what the scanner makes of a connection's text.
use arm_processor_simulator.Base.{List, true, false, [], ◌∷◌, ◌++◌, ◌≡◌, refl, arith, done, codes}
use arm_processor_simulator.Gdb.State.{gdb_init_data, frame, checksum, ◌>>◌, gdb_send_ack}
use arm_processor_simulator.Gdb.Text.{hex_byte}
use arm_processor_simulator.Gdb.Words.{Orders}
use arm_processor_simulator.Gdb.Packet.{handle_packet}
use arm_processor_simulator.Scanner.{Scanner, Token, on_gdb, yylex, gdb_scanner}
use arm_processor_simulator.Scanner.Tokens.{after_rule, yylex-enough}
use arm_processor_simulator.Scanner.Packets.{yylex-frame}
use arm_processor_simulator.Scanner.Buffer.{yylex-stray}
use arm_processor_simulator.Scanner.Requests.{asked}
use arm_processor_simulator.Scanner.Grammar.{Tokens}
use arm_processor_simulator.Simulator.Streams.{events, serve_all, seen, gdb_scanner-events}
use arm_processor_simulator.Samples.{core_at}

abbrev orders : Orders
orders = record { host_big = false; target_big = false }

abbrev scanner : Scanner
scanner = record { gdb = gdb_init_data (core_at 0); buffer = [] }

-- `?` in a packet, and a stray character behind it.
scanned_example :
    yylex 2 8 orders (frame (codes "?") ++ codes "x") scanner
    ≡ after_rule (yylex 1 8 orders (codes "x")) (
        on_gdb
          (gdb_send_ack
            >> handle_packet 8 orders
                (b'$' ∷ (codes "?" ++ 0 ∷ (hex_byte (checksum (codes "?")) ++ 0 ∷ []))))
          scanner)
scanned_example = yylex-frame 1 8 orders (codes "?") (codes "x") scanner refl refl

stray_example : yylex 9 8 orders (codes "#00") scanner ≡ done (true, asked 1 scanner)
unfolding gdb_init_data
stray_example = yylex-stray (codes "#00") 9 8 orders scanner refl (omega arith) (omega arith)

stream_example :
    (tokens : List Token) × Tokens (codes "-a$?#3f+") tokens
    × (seen (gdb_scanner 8 8 orders (codes "-a$?#3f+") (core_at 0))
        ≡ serve_all 8 orders (events 0 tokens) (gdb_init_data (core_at 0)))
stream_example = gdb_scanner-events 8 8 orders (codes "-a$?#3f+") (core_at 0) (omega arith)

enough_example : yylex 9 8 orders (codes "$?#3f") scanner ≡ yylex 5 8 orders (codes "$?#3f") scanner
enough_example = yylex-enough 9 8 orders (codes "$?#3f") scanner (omega arith)
