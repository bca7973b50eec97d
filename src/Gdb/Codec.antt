-- ===== src/Gdb/Codec.antt =====
-- arm_simulator-1.4/gdb_protocol.c: a word that is written to a packet is read back.
use arm_processor_simulator.Base.{
  ℕ, zero, suc, ◌+◌, ◌-◌, ◌/◌, ◌%◌, ◌^◌, ◌<◌, Bool, true, false, not, ◌&&◌, Option, none, some,
  List, [], ◌∷◌, ◌++◌, ◌≡◌, refl, ap, ◌∙◌, done, ◌>>=◌, ltb, ◌==◌, if_true, if_false, Bool-cases,
  inl, inr, update, all_below, all_below-apply, arith, ==_iff,
}
use arm_processor_simulator.Util.{u8, u32}
use arm_processor_simulator.Gdb.Text.{
  Scanned, no_match, too_large, matched, scan_hex_2, scan_digits, hex_byte, hex_digit, has_end,
  is_space, scan_sign, scan_prefix, stored_value,
}
use arm_processor_simulator.Gdb.Words.{
  Orders, read_loop, read_uint32, write_loop, write_uint32, start_index, scan_value, union_byte,
  union_integer, index_step,
}

abbrev scans_to : ℕ → Scanned → Bool
scans_to v no_match = false
scans_to v too_large = false
scans_to v (matched w left) = w == v

-- The digits of a byte are no terminator, the first is no space, and they scan to the byte.
abbrev is_readable : ℕ → Bool
is_readable v =
    scans_to v (scan_sign scan_prefix (hex_byte v))
    && not (hex_digit (v / 16) == 0)
    && not (hex_digit (v % 16) == 0)
    && not (is_space (hex_digit (v / 16)))

all_readable : all_below 256 is_readable ≡ true
unfolding all_below scan_digits
all_readable = refl

scans-value :
    (v : ℕ) (s : Scanned)
    → scans_to v s ≡ true
    → (old : Option ℕ) → stored_value s old ≡ done (some v)
scans-value v no_match h old = absurd cc
scans-value v too_large h old = absurd cc
scans-value v (matched w left) h old = let eq = (==_iff w v).0 h in cc

four :
    (a b c d : Bool)
    → (a && not b && not c && not d) ≡ true
    → (a ≡ true) × (b ≡ false) × (c ≡ false) × (d ≡ false)
four a b c d h = ground arith

scan-two :
    (h l : ℕ) (rest : List ℕ)
    → has_end rest ≡ true
    → (h == 0) ≡ false
    → (l == 0) ≡ false
    → is_space h ≡ false
    → (old : Option ℕ)
    → scan_value (h ∷ l ∷ rest) old ≡ stored_value (scan_sign scan_prefix (h ∷ l ∷ [])) old
unfolding scan_value scan_hex_2
scan-two h l rest ended h_set l_set visible old = cc

scan_value-byte :
    (v : ℕ) (rest : List ℕ) (old : Option ℕ)
    → v < 256
    → has_end rest ≡ true
    → scan_value (hex_byte v ++ rest) old ≡ done (some v)
scan_value-byte v rest old lt ended =
    let (scans, h_set, l_set, visible) =
      four (scans_to v (scan_sign scan_prefix (hex_byte v))) (hex_digit (v / 16) == 0)
        (hex_digit (v % 16) == 0) (is_space (hex_digit (v / 16)))
        (all_below-apply 256 is_readable v all_readable lt) in
    scan-two (hex_digit (v / 16)) (hex_digit (v % 16)) rest ended h_set l_set visible old
    ∙ scans-value v (scan_sign scan_prefix (hex_byte v)) scans old

read_loop-round :
    (rounds : ℕ) (o : Orders) (v : ℕ) (rest : List ℕ) (old : Option ℕ) (bytes : ℕ → ℕ) (i : ℕ)
    → v < 256
    → has_end rest ≡ true
    → ltb i 4 ≡ true
    → read_loop (suc rounds) o (hex_byte v ++ rest) old bytes i
      ≡ read_loop rounds o rest (some v) (update bytes i v) (u32 (i + index_step o))
unfolding read_loop
read_loop-round rounds o v rest old bytes i lt ended inside =
    let scanned = scan_value-byte v rest old lt ended in let byte : u8 v ≡ v = omega arith in cc

ended-byte : (v : ℕ) (rest : List ℕ) → has_end rest ≡ true → has_end (hex_byte v ++ rest) ≡ true
ended-byte v rest h = ground arith

-- The four rounds, over indices that the order fixes, and the fifth test.
module _ (o : Orders) (b0 b1 b2 b3 : ℕ) (rest : List ℕ) (i0 i1 i2 i3 i4 : ℕ) where
  digits : List ℕ
  digits = hex_byte b0 ++ (hex_byte b1 ++ (hex_byte b2 ++ (hex_byte b3 ++ rest)))

  read_loop-rounds :
      (b0 < 256) × (b1 < 256) × (b2 < 256) × (b3 < 256)
      → has_end rest ≡ true
      → (ltb i0 4 ≡ true)
        × (ltb i1 4 ≡ true)
        × (ltb i2 4 ≡ true)
        × (ltb i3 4 ≡ true)
        × (ltb i4 4 ≡ false)
      → (u32 (i0 + index_step o) ≡ i1)
        × (u32 (i1 + index_step o) ≡ i2)
        × (u32 (i2 + index_step o) ≡ i3)
        × (u32 (i3 + index_step o) ≡ i4)
      → read_loop 5 o digits none (λ _. 0) i0
        ≡ done (update (update (update (update (λ _. 0) i0 b0) i1 b1) i2 b2) i3 b3)
  unfolding read_loop digits
  read_loop-rounds (lt0, lt1, lt2, lt3) ended (t0, t1, t2, t3, t4) (s0, s1, s2, s3) =
      let ended3 = ended-byte b3 rest ended in
      let ended2 = ended-byte b2 (hex_byte b3 ++ rest) ended3 in
      let ended1 = ended-byte b1 (hex_byte b2 ++ (hex_byte b3 ++ rest)) ended2 in
      read_loop-round 4 o b0 _ none _ i0 lt0 ended1 t0
      ∙ ap (read_loop 4 o _ (some b0) _) s0
      ∙ read_loop-round 3 o b1 _ (some b0) _ i1 lt1 ended2 t1
      ∙ ap (read_loop 3 o _ (some b1) _) s1
      ∙ read_loop-round 2 o b2 _ (some b1) _ i2 lt2 ended3 t2
      ∙ ap (read_loop 2 o _ (some b2) _) s2
      ∙ read_loop-round 1 o b3 rest (some b2) _ i3 lt3 ended t3
      ∙ if_false (ltb (u32 (i3 + index_step o)) 4) _ _ (ap (λ i. ltb i 4) s3 ∙ t4)

byte_lt : (n : ℕ) → u8 n < 256
byte_lt n = omega arith

abbrev orders : Bool → Bool → Orders
orders host_big target_big = record { host_big = host_big; target_big = target_big }

-- The bytes of the word at the indices, in the order of the loop.
read_loop-word :
    (o : Orders) (value : ℕ) (rest : List ℕ) (i0 i1 i2 i3 i4 : ℕ)
    → has_end rest ≡ true
    → (ltb i0 4 ≡ true)
      × (ltb i1 4 ≡ true)
      × (ltb i2 4 ≡ true)
      × (ltb i3 4 ≡ true)
      × (ltb i4 4 ≡ false)
    → (u32 (i0 + index_step o) ≡ i1)
      × (u32 (i1 + index_step o) ≡ i2)
      × (u32 (i2 + index_step o) ≡ i3)
      × (u32 (i3 + index_step o) ≡ i4)
    → read_loop 5 o
        (digits o
          (union_byte o.host_big value i0)
          (union_byte o.host_big value i1)
          (union_byte o.host_big value i2)
          (union_byte o.host_big value i3)
          rest
          i0
          i1
          i2
          i3
          i4)
        none
        (λ _. 0)
        i0
      ≡ done (
          update
            (update
              (update
                (update (λ _. 0) i0 (union_byte o.host_big value i0))
                i1
                (union_byte o.host_big value i1))
              i2
              (union_byte o.host_big value i2))
            i3
            (union_byte o.host_big value i3))
read_loop-word o value rest i0 i1 i2 i3 i4 ended tests steps =
    read_loop-rounds o (union_byte o.host_big value i0) (union_byte o.host_big value i1)
      (union_byte o.host_big value i2) (union_byte o.host_big value i3) rest i0 i1 i2 i3 i4
      (byte_lt _, byte_lt _, byte_lt _, byte_lt _) ended tests steps

read-back :
    (host target : Bool) (value : ℕ) (rest : List ℕ)
    → value < 2 ^ 32
    → has_end rest ≡ true
    → read_uint32 (orders host target) (write_uint32 (orders host target) value ++ rest)
      ≡ done value
unfolding read_uint32 write_uint32 write_loop digits
read-back true true value rest lt ended =
    ap (λ m. m >>= λ bytes. done (union_integer true bytes))
      (read_loop-word (orders true true) value rest 0 1 2 3 4 ended (refl, refl, refl, refl, refl)
        (refl, refl, refl, refl))
    ∙ ap done (omega arith)
read-back true false value rest lt ended =
    ap (λ m. m >>= λ bytes. done (union_integer true bytes))
      (read_loop-word (orders true false) value rest 3 2 1 0 (2 ^ 32 - 1) ended
        (refl, refl, refl, refl, refl) (refl, refl, refl, refl))
    ∙ ap done (omega arith)
read-back false true value rest lt ended =
    ap (λ m. m >>= λ bytes. done (union_integer false bytes))
      (read_loop-word (orders false true) value rest 3 2 1 0 (2 ^ 32 - 1) ended
        (refl, refl, refl, refl, refl) (refl, refl, refl, refl))
    ∙ ap done (omega arith)
read-back false false value rest lt ended =
    ap (λ m. m >>= λ bytes. done (union_integer false bytes))
      (read_loop-word (orders false false) value rest 0 1 2 3 4 ended (refl, refl, refl, refl, refl)
        (refl, refl, refl, refl))
    ∙ ap done (omega arith)

-- A word that is written to a packet and read again, on hosts and targets of either byte order: it is
-- the same word, if what follows it ends within the array.
pub read_uint32-write_uint32 :
    (o : Orders) (value : ℕ) (rest : List ℕ)
    → value < 2 ^ 32
    → has_end rest ≡ true
    → read_uint32 o (write_uint32 o value ++ rest) ≡ done value
read_uint32-write_uint32 o value rest lt ended =
    read-back o.host_big o.target_big value rest lt ended

ended-loop :
    (rounds : ℕ) (o : Orders) (value i : ℕ) (rest : List ℕ)
    → has_end rest ≡ true
    → has_end (write_loop rounds o value i ++ rest) ≡ true
unfolding write_loop
ended-loop zero o value i rest h = h
ended-loop (suc rounds) o value i rest h =
    let v = union_byte o.host_big value i in
    let more = write_loop rounds o value (u32 (i + index_step o)) in
    elim (Bool-cases (ltb i 4)) [
      | inl inside ↦
          ap (λ t. has_end (t ++ rest)) (if_true (ltb i 4) (hex_byte v ++ more) [] inside)
          ∙ ended-byte v (more ++ rest) (ended-loop rounds o value (u32 (i + index_step o)) rest h)
      | inr outside ↦
          ap (λ t. has_end (t ++ rest)) (if_false (ltb i 4) (hex_byte v ++ more) [] outside) ∙ h
    ]

pub ended-word :
    (o : Orders) (value : ℕ) (rest : List ℕ)
    → has_end rest ≡ true
    → has_end (write_uint32 o value ++ rest) ≡ true
unfolding write_uint32
ended-word o value rest h = ended-loop 5 o value (start_index o) rest h
