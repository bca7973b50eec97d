-- ===== src/Gdb/Checksum.antt =====
-- arm_simulator-1.4/gdb_protocol.c: what the checksum of a packet decides.
use arm_processor_simulator.Base.{
  ℕ, suc, ◌+◌, ◌-◌, ◌<◌, ◌%◌, Bool, true, false, not, ◌&&◌, ◌/◌, List, [], ◌∷◌, ◌++◌, ◌≡◌, inl, inr,
  refl, ap, ◌∙◌, done, exited, ltb, ◌==◌, if◌then◌else◌, if_true, length, drop, set-append, arith,
  all_below, all_below-apply, Bool-cases, ==_iff, ==_refl, append_assoc,
}
use arm_processor_simulator.Util.{u8}
use arm_processor_simulator.Gdb.Text.{
  Scanned, matched, scan_hex, scan_digits, hex_byte, hex_digit, no_match, too_large, text_of,
}
use arm_processor_simulator.Gdb.Words.{Orders}
use arm_processor_simulator.Gdb.State.{
  Gdb, pure, ◌>>◌, gdb_send_ack, gdb_require_retransmission, frame, checksum, checksum_from,
}
use arm_processor_simulator.Gdb.Packet.{analyse, gdb_packet_analysis, handle_packet, check_loop}

check_loop-text :
    (text rest : List ℕ) (check : ℕ)
    → check_loop (length text) check (text ++ rest) ≡ done (checksum_from check text)
unfolding check_loop
check_loop-text [] rest check = refl
check_loop-text (c ∷ cs) rest check = check_loop-text cs rest (u8 (check + c))

pub checksum-u8 : (text : List ℕ) (check : ℕ) → check < 256 → checksum_from check text < 256
checksum-u8 [] check lt = lt
checksum-u8 (c ∷ cs) check lt = checksum-u8 cs (u8 (check + c)) (omega arith)

-- The index of `#`.
mark_index : (n : ℕ) → (if ltb 4 (n + 4) then n + 4 - 3 else 1) ≡ suc n
mark_index n = ground arith

text_of-two :
    (c d : ℕ) (rest : List ℕ)
    → (c == 0) ≡ false
    → (d == 0) ≡ false
    → text_of (c ∷ d ∷ 0 ∷ rest) ≡ done (c ∷ d ∷ [])
text_of-two c d rest c_set d_set = cc

drop-append-suc : (xs ys : List ℕ) (y : ℕ) → drop (suc (length xs)) (xs ++ y ∷ ys) ≡ ys
drop-append-suc [] ys y = refl
drop-append-suc (x ∷ xs) ys y = drop-append-suc xs ys y

analyse-at :
    (rounds : ℕ) (o : Orders) (g : Gdb) (body : List ℕ) (c d v : ℕ) (left rest : List ℕ)
    → text_of (c ∷ d ∷ 0 ∷ rest) ≡ done (c ∷ d ∷ [])
    → scan_hex (c ∷ d ∷ []) ≡ matched v left
    → analyse rounds o (b'$' ∷ (body ++ b'#' ∷ c ∷ d ∷ 0 ∷ rest)) (suc (length body)) g ≡ (
        if checksum body == v
        then (gdb_send_ack >> handle_packet rounds o (b'$' ∷ (body ++ 0 ∷ c ∷ d ∷ 0 ∷ rest))) g
        else (gdb_require_retransmission >> pure true) g)
unfolding analyse check_loop
analyse-at rounds o g body c d v left rest text scanned =
    let n = length body in
    let count : suc n - 1 ≡ n = omega arith in
    let next : suc n + 1 ≡ suc (suc n) = omega arith in
    let checked = check_loop-text body (b'#' ∷ c ∷ d ∷ 0 ∷ rest) 0 in
    let behind = drop-append-suc body (c ∷ d ∷ 0 ∷ rest) b'#' in
    let replaced = set-append body (c ∷ d ∷ 0 ∷ rest) b'#' 0 in
    rw (count, next, checked, behind, text, scanned, replaced)
      (elim (Bool-cases (checksum body == v)) [
        | inl same ↦ rw same refl
        | inr other ↦ rw other refl
      ])

three : (a b c : Bool) → (a && not b && not c) ≡ true → (a ≡ true) × (b ≡ false) × (c ≡ false)
three a b c h = ground arith

asked_again :
    (g : Gdb)
    → (gdb_require_retransmission >> pure true) g
      ≡ (if g.is_shut then exited else done (true, record g { sent = (b'-' ∷ []) ∷ g.sent }))
unfolding gdb_require_retransmission
asked_again g = elim (Bool-cases g.is_shut) [ inl shut ↦ rw shut refl | inr live ↦ rw live refl ]

-- A packet and its checksum: one that names the sum of its bytes is acknowledged and handled, with a
-- terminator in place of `#`. For any other the debugger is asked to send again, and nothing
-- changes; the program exits instead if the socket is shut down.
pub gdb_packet_analysis_lem :
    (rounds : ℕ) (o : Orders) (g : Gdb) (body : List ℕ) (c d v : ℕ) (left rest : List ℕ)
    → (c == 0) ≡ false
    → (d == 0) ≡ false
    → scan_hex (c ∷ d ∷ []) ≡ matched v left
    → gdb_packet_analysis rounds o (b'$' ∷ (body ++ b'#' ∷ c ∷ d ∷ 0 ∷ rest)) (length body + 4) g
      ≡ (if checksum body == v
          then (gdb_send_ack >> handle_packet rounds o (b'$' ∷ (body ++ 0 ∷ c ∷ d ∷ 0 ∷ rest))) g
          else if g.is_shut
          then exited
          else done (true, record g { sent = (b'-' ∷ []) ∷ g.sent }))
unfolding gdb_packet_analysis
gdb_packet_analysis_lem rounds o g body c d v left rest c_set d_set scanned =
    ap (λ i. analyse rounds o (b'$' ∷ (body ++ b'#' ∷ c ∷ d ∷ 0 ∷ rest)) i g)
      (mark_index (length body))
    ∙ analyse-at rounds o g body c d v left rest (text_of-two c d rest c_set d_set) scanned
    ∙ ap
        (λ m.
          if checksum body == v
          then (gdb_send_ack >> handle_packet rounds o (b'$' ∷ (body ++ 0 ∷ c ∷ d ∷ 0 ∷ rest))) g
          else m)
        (asked_again g)

-- Whether the two digits of a byte scan to it.
abbrev scans_to : ℕ → Scanned → Bool
scans_to v no_match = false
scans_to v too_large = false
scans_to v (matched w left) =
    w == v && not (hex_digit (v / 16) == 0) && not (hex_digit (v % 16) == 0)

all_bytes : all_below 256 (λ v. scans_to v (scan_hex (hex_byte v))) ≡ true
unfolding all_below scan_hex scan_digits
all_bytes = refl

scans-byte :
    (v : ℕ) (s : Scanned)
    → scans_to v s ≡ true
    → (left : List ℕ) × (s ≡ matched v left)
      × ((hex_digit (v / 16) == 0) ≡ false)
      × ((hex_digit (v % 16) == 0) ≡ false)
scans-byte v no_match h = absurd cc
scans-byte v too_large h = absurd cc
scans-byte v (matched w left) h =
    let (same, high, low) = three (w == v) (hex_digit (v / 16) == 0) (hex_digit (v % 16) == 0) h in
    let eq = (==_iff w v).0 same in (left, cc, high, low)

-- A packet framed as the simulator frames its own, with the terminator of the scanner: it is
-- acknowledged and handled.
pub gdb_packet_analysis-frame :
    (rounds : ℕ) (o : Orders) (g : Gdb) (body rest : List ℕ)
    → gdb_packet_analysis rounds o (frame body ++ 0 ∷ rest) (length body + 4) g
      ≡ (gdb_send_ack
            >> handle_packet rounds o (b'$' ∷ (body ++ 0 ∷ (hex_byte (checksum body) ++ 0 ∷ rest))))
          g
gdb_packet_analysis-frame rounds o g body rest =
    let v = checksum body in
    let lt = checksum-u8 body 0 (omega arith) in
    let (left, scanned, c_set, d_set) =
      scans-byte v (scan_hex (hex_byte v))
        (all_below-apply 256 (λ v. scans_to v (scan_hex (hex_byte v))) v all_bytes lt) in
    ap (λ t. gdb_packet_analysis rounds o (b'$' ∷ t) (length body + 4) g)
      (append_assoc body (b'#' ∷ hex_byte v) (0 ∷ rest))
    ∙ gdb_packet_analysis_lem rounds o g body (hex_digit (v / 16)) (hex_digit (v % 16)) v left rest
        c_set d_set scanned
    ∙ if_true (v == v) _ _ (==_refl v)
