-- ===== src/Crypto/Blake/Update.antt =====
-- blake2s_update against the message taken byte by byte.
use wireguard_freebsd.Prelude.{
  ℕ, ◌+◌, ◌-◌, ◌*◌, ◌/◌, ◌≤◌, ◌<◌, ◌≡◌, refl, sym, ap, subst, ◌∙◌, [], ◌++◌, length, take, drop,
  Bytes, arith, ◌==◌, ltb, Bool, false, if◌then◌else◌, inl, inr, ◌⊎◌, each_block, copy_at,
  length-append, take-append_drop, length-take, length-drop, take-copy_at, length-copy_at,
  nil_of_length, Bool-cases, ltb→lt, ltb-false,
}
use wireguard_freebsd.Crypto.Blake.{
  BlakeCore, BlakeState, compress_block, blake2s_compress, full_blocks, update_rest, blake2s_update,
}
use wireguard_freebsd.Crypto.Blake.Absorb.{
  absorb, absorb-append, absorb-short, absorb-full, absorb-each_block,
}

-- What the state has of the message: what the blocks before have made and the bytes that wait.
abbrev pub pending : BlakeState → BlakeCore × Bytes
pending s = (s.core, take s.buflen s.buf)

-- What blake2s_init leaves and blake2s_update keeps.
abbrev pub IsBlakeState : BlakeState → Type 0
IsBlakeState s = (length s.buf ≡ 64) × (s.buflen ≤ 64)

abbrev pub absorbed : BlakeCore × Bytes → Bytes → BlakeCore × Bytes
absorbed s xs = absorb 64 (compress_block 64) s xs

full_blocks_lem :
    (len : ℕ)
    → ((full_blocks len ≡ 0) × (len ≤ 64))
      ⊎ ((64 < len) × (full_blocks len * 64 < len) × (len ≤ full_blocks len * 64 + 64))
full_blocks_lem len = elim (Bool-cases (ltb 64 len)) [
  | inl h ↦
      let long = ltb→lt 64 len h in
      let e : full_blocks len ≡ (len + 63) / 64 - 1 =
        ap (λ b. if b then (len + 63) / 64 - 1 else 0) h in
      inr (long, omega arith, omega arith)
  | inr h ↦ inl (ap (λ b. if b then (len + 63) / 64 - 1 else 0) h, ltb-false 64 len h)
]

blocks_taken :
    (n : ℕ) (core : BlakeCore) (waits input : Bytes)
    → (n ≡ 0) ⊎ ((length waits ≡ 0) × (n * 64 < length input))
    → absorbed (core, waits) input
      ≡ absorbed (each_block 64 (compress_block 64) n core input, waits) (drop (64 * n) input)
blocks_taken n core waits input (inl z) =
    ap (λ k. absorbed (each_block 64 (compress_block 64) k core input, waits) (drop (64 * k) input))
      (sym z)
blocks_taken n core waits input (inr more) =
    let next : BlakeCore = each_block 64 (compress_block 64) n core input in
    let none_wait : waits ≡ [] = nil_of_length waits more.0 in
    let e : n * 64 ≡ 64 * n = omega arith in
    ap (λ (t : Bytes). absorbed (core, t) input) none_wait
    ∙ absorb-each_block 64 (compress_block 64) n core input (omega arith) more.1
    ∙ ap (λ k. absorbed (next, []) (drop k input)) e
    ∙ ap (λ (t : Bytes). absorbed (next, t) (drop (64 * n) input)) (sym none_wait)

-- The end of the update, from a state with room for the input or with nothing that waits.
update_rest_lem :
    (s : BlakeState) (input : Bytes)
    → IsBlakeState s
    → (s.buflen + length input ≤ 64) ⊎ (s.buflen ≡ 0)
    → (pending (update_rest s input) ≡ absorbed (pending s) input)
      × IsBlakeState (update_rest s input)
unfolding update_rest blake2s_compress
update_rest_lem s input ok room =
    let n : ℕ = full_blocks (length input) in
    let rest : Bytes = drop (64 * n) input in
    let core : BlakeCore = each_block 64 (compress_block 64) n s.core input in
    let waits : Bytes = take s.buflen s.buf in
    let len_waits : length waits ≡ s.buflen = length-take s.buflen s.buf (omega arith) in
    let len_rest : length rest ≡ length input - 64 * n = length-drop (64 * n) input in
    let sized = full_blocks_lem (length input) in
    let fits : s.buflen + length rest ≤ 64 = elim sized [
      | inl q ↦ elim room [ inl r ↦ omega arith | inr r ↦ omega arith ]
      | inr q ↦ elim room [ inl r ↦ omega arith | inr r ↦ omega arith ]
    ] in
    let blocks : absorbed (s.core, waits) input ≡ absorbed (core, waits) rest =
      blocks_taken n s.core waits input (elim sized [
        | inl q ↦ inl q.0
        | inr q ↦ inr (len_waits ∙ elim room [ inl r ↦ absurd (omega arith) | inr r ↦ r ], q.1)
      ]) in
    (
      ap (λ (t : Bytes). let out : BlakeCore × Bytes = (core, t) in out)
            (take-copy_at s.buf s.buflen rest (s.buflen + length rest) (omega arith) refl)
          ∙ sym (absorb-short 64 (compress_block 64) core waits rest (omega arith))
          ∙ sym blocks,
      (length-copy_at s.buf s.buflen rest (omega arith) ∙ ok.0, fits),
    )

-- The state once the block that waits is filled and hashed.
abbrev fill_block : BlakeState → Bytes → BlakeState
fill_block s input =
    let buf = copy_at s.buf s.buflen (take (64 - s.buflen) input) in
    record s { core = blake2s_compress s.core buf 1 64; buf = buf; buflen = 0 }

fill_block_lem :
    (s : BlakeState) (input : Bytes)
    → IsBlakeState s
    → 64 - s.buflen < length input
    → (absorbed (pending s) input
        ≡ absorbed (pending (fill_block s input)) (drop (64 - s.buflen) input))
      × (length (fill_block s input).buf ≡ 64)
unfolding blake2s_compress
fill_block_lem s input ok more =
    let fill : ℕ = 64 - s.buflen in
    let first : Bytes = take fill input in
    let rest : Bytes = drop fill input in
    let waits : Bytes = take s.buflen s.buf in
    let len_first : length first ≡ fill = length-take fill input (omega arith) in
    let len_waits : length waits ≡ s.buflen = length-take s.buflen s.buf (omega arith) in
    let buf : Bytes = copy_at s.buf s.buflen first in
    let len_buf : length buf ≡ 64 = length-copy_at s.buf s.buflen first (omega arith) ∙ ok.0 in
    let is_block : waits ++ first ≡ take 64 buf =
      sym (take-copy_at s.buf s.buflen first 64 (omega arith) (omega arith)) in
    let hashed : Bytes → BlakeCore × Bytes = λ t. (compress_block 64 s.core t, []) in
    (
      ap (absorbed (pending s)) (sym (take-append_drop fill input))
          ∙ absorb-append 64 (compress_block 64) (pending s) first rest
          ∙ ap (λ (t : BlakeCore × Bytes). absorbed t rest)
              (absorb-short 64 (compress_block 64) s.core waits first (omega arith))
          ∙ absorb-full 64 (compress_block 64) s.core (waits ++ first) rest (omega arith)
              (omega (arith, length-append waits first)) (omega (arith, length-drop fill input))
          ∙ ap (λ (t : Bytes). absorbed (hashed t) rest) is_block,
      len_buf,
    )

-- `blake2s_update` on a state that blake2s_init or blake2s_update left: it adds to the message that was
-- taken the bytes of the input one after the other, where a full block is hashed only once a further
-- byte has come; the number of bytes that wait stays within the buffer.
pub blake2s_update_lem :
    (s : BlakeState) (input : Bytes)
    → IsBlakeState s
    → (pending (blake2s_update s input) ≡ absorbed (pending s) input)
      × IsBlakeState (blake2s_update s input)
unfolding blake2s_update absorb
blake2s_update_lem s input ok =
    let fill : ℕ = 64 - s.buflen in
    let a : BlakeState = update_rest (fill_block s input) (drop fill input) in
    let b : BlakeState = update_rest s input in
    let pick : Bool → Bool → BlakeState = λ x y. if x then s else if y then a else b in
    let Good : BlakeState → Type 0 =
      λ t. (pending t ≡ absorbed (pending s) input) × IsBlakeState t in
    elim (Bool-cases (length input == 0)) [
      | inl e ↦
          let none : length input ≡ 0 = ground arith in
          subst (λ x. Good (pick x (ltb fill (length input)))) (sym e)
            (ap (absorbed (pending s)) (sym (nil_of_length input none)), ok)
      | inr e ↦
          subst (λ x. Good (pick x (ltb fill (length input)))) (sym e)
            (elim (Bool-cases (ltb fill (length input))) [
              | inl l ↦
                  let filled = fill_block_lem s input ok (ltb→lt fill (length input) l) in
                  let rest =
                    update_rest_lem (fill_block s input) (drop fill input) (filled.1, omega arith)
                      (inr refl) in
                  subst (λ y. Good (pick false y)) (sym l) (rest.0 ∙ sym filled.0, rest.1)
              | inr l ↦
                  let short = ltb-false fill (length input) l in
                  subst (λ y. Good (pick false y)) (sym l)
                    (update_rest_lem s input ok (inl (omega arith)))
            ])
    ]
