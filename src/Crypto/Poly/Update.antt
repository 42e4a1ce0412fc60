-- ===== src/Crypto/Poly/Update.antt =====
-- poly1305_update against the message taken byte by byte.
use wireguard_freebsd.Prelude.{
  ℕ, ◌+◌, ◌-◌, ◌/◌, ◌%◌, ◌≤◌, ◌<◌, ◌≡◌, refl, sym, ap, ap₂, subst, ◌∙◌, [], ◌++◌, length, take,
  drop, Bytes, arith, ◌==◌, ltb, Bool, false, if◌then◌else◌, if_cases, inl, inr, each_block,
  copy_at, length-append, take-append_drop, length-take, length-drop, take-copy_at, length-copy_at,
  take-all, nil_of_length, Bool-cases, ltb→lt, ltb-false,
}
use wireguard_freebsd.Crypto.Poly.{
  PolyCtx, PolyInternal, poly1305_block, poly1305_blocks_core, update_blocks, poly1305_update,
}
use wireguard_freebsd.Crypto.Poly.Absorb.{
  absorb, absorb-append, absorb-short, absorb-block, absorb-each_block,
}

-- What the context has of the message: the state of its whole blocks and the bytes that wait.
abbrev pub pending : PolyCtx → PolyInternal × Bytes
pending ctx = (ctx.state, take ctx.num ctx.buf)

-- What poly1305_init leaves and poly1305_update keeps.
abbrev pub IsPolyCtx : PolyCtx → Type 0
IsPolyCtx ctx = (length ctx.buf ≡ 16) × (ctx.num < 16)

abbrev pub absorbed : PolyInternal × Bytes → Bytes → PolyInternal × Bytes
absorbed s xs = absorb 16 (poly1305_block 1) s xs

blocks_core_lem :
    (st : PolyInternal) (xs : Bytes)
    → length xs % 16 ≡ 0
    → absorbed (st, []) xs ≡ (poly1305_blocks_core st xs 1, [])
unfolding poly1305_blocks_core
blocks_core_lem st xs h =
    absorb-each_block 16 (poly1305_block 1) (length xs / 16) st xs (omega arith) (omega arith)

-- Nothing to do for less than a block.
skipped :
    (st : PolyInternal) (xs : Bytes) (len : ℕ)
    → length xs ≡ len
    → len % 16 ≡ 0
    → (if ltb len 16 then st else poly1305_blocks_core st xs 1) ≡ poly1305_blocks_core st xs 1
unfolding poly1305_blocks_core
skipped st xs len h k = elim (Bool-cases (ltb len 16)) [
  | inl less ↦
      let none_left : length xs / 16 ≡ 0 = omega (arith, ltb→lt len 16 less) in
      ap (λ (b : Bool). if b then st else poly1305_blocks_core st xs 1) less
      ∙ sym (ap (λ n. each_block 16 (poly1305_block 1) n st xs) none_left)
  | inr more ↦ ap (λ (b : Bool). if b then st else poly1305_blocks_core st xs 1) more
]

-- The bytes that wait after update_blocks.
rest_kept :
    (buf tail : Bytes) (rem : ℕ)
    → length buf ≡ 16
    → length tail ≡ rem
    → rem < 16
    → take rem (if rem == 0 then buf else copy_at buf 0 tail) ≡ tail
rest_kept buf tail rem h k l = elim (Bool-cases (rem == 0)) [
  | inl e ↦
      let z : rem ≡ 0 = ground arith in
      ap (λ (b : Bool). take rem (if b then buf else copy_at buf 0 tail)) e
      ∙ ap (λ n. take n buf) z
      ∙ sym (nil_of_length tail (omega arith))
  | inr e ↦
      ap (λ (b : Bool). take rem (if b then buf else copy_at buf 0 tail)) e
      ∙ take-copy_at buf 0 tail rem (omega arith) (omega arith)
]

update_blocks_lem :
    (ctx : PolyCtx) (input : Bytes)
    → length ctx.buf ≡ 16
    → pending (update_blocks ctx input) ≡ absorbed (ctx.state, []) input
unfolding update_blocks
update_blocks_lem ctx input h =
    let rem : ℕ = length input % 16 in
    let len : ℕ = length input - rem in
    let first : Bytes = take len input in
    let tail : Bytes = drop len input in
    let len_first : length first ≡ len = length-take len input (omega arith) in
    let len_tail : length tail ≡ rem = omega (arith, length-drop len input) in
    let st : PolyInternal = poly1305_blocks_core ctx.state first 1 in
    let whole : len % 16 ≡ 0 = omega arith in
    let result : PolyInternal → Bytes → PolyInternal × Bytes = λ s p. (s, p) in
    ap₂ result (skipped ctx.state first len len_first whole)
      (rest_kept ctx.buf tail rem h len_tail (omega arith))
    ∙ sym (absorb-short 16 (poly1305_block 1) st [] tail (omega arith))
    ∙ ap (λ (s : PolyInternal × Bytes). absorbed s tail)
        (sym (blocks_core_lem ctx.state first (omega arith)))
    ∙ sym (absorb-append 16 (poly1305_block 1) (ctx.state, []) first tail)
    ∙ ap (absorbed (ctx.state, [])) (take-append_drop len input)

update_blocks-IsPolyCtx :
    (ctx : PolyCtx) (input : Bytes) → length ctx.buf ≡ 16 → IsPolyCtx (update_blocks ctx input)
unfolding update_blocks
update_blocks-IsPolyCtx ctx input h =
    let rem : ℕ = length input % 16 in
    let len : ℕ = length input - rem in
    let tail : Bytes = drop len input in
    let len_tail : length tail ≡ rem = omega (arith, length-drop len input) in
    (
      if_cases (λ (b : Bytes). length b ≡ 16) (rem == 0) ctx.buf (copy_at ctx.buf 0 tail) h
          (length-copy_at ctx.buf 0 tail (omega arith) ∙ h),
      omega arith,
    )

-- The context once the block that waits is filled and taken.
abbrev fill_block : PolyCtx → Bytes → PolyCtx
fill_block ctx input =
    let buf = copy_at ctx.buf ctx.num (take (16 - ctx.num) input) in
    record ctx { state = poly1305_blocks_core ctx.state buf 1; buf = buf }

-- The three paths of poly1305_update: nothing waits, the input is too short to fill the block that
-- waits, and the block is filled.
data Paths (ctx : PolyCtx) (input : Bytes) : Type 0 where
  fresh : ctx.num ≡ 0 → poly1305_update ctx input ≡ update_blocks ctx input → Paths ctx input
  short :
      0 < ctx.num
      → ctx.num + length input < 16
      → poly1305_update ctx input
        ≡ record ctx { buf = copy_at ctx.buf ctx.num input; num = ctx.num + length input }
      → Paths ctx input
  filled :
      0 < ctx.num
      → 16 ≤ ctx.num + length input
      → poly1305_update ctx input ≡ update_blocks (fill_block ctx input) (drop (16 - ctx.num) input)
      → Paths ctx input

paths : (ctx : PolyCtx) (input : Bytes) → ctx.num < 16 → Paths ctx input
unfolding poly1305_update
paths ctx input small =
    let rem = 16 - ctx.num in
    let a : PolyCtx = update_blocks ctx input in
    let b : PolyCtx = record ctx {
      buf = copy_at ctx.buf ctx.num input;
      num = ctx.num + length input;
    } in
    let c : PolyCtx = update_blocks (fill_block ctx input) (drop rem input) in
    let pick : Bool → Bool → PolyCtx = λ x y. if x then a else if y then b else c in
    elim (Bool-cases (ctx.num == 0)) [
      | inl e ↦ Paths.fresh (ground arith) (ap (λ x. pick x (ltb (length input) rem)) e)
      | inr e ↦
          let some_wait : 0 < ctx.num = ground arith in
          let first = ap (λ x. pick x (ltb (length input) rem)) e in
          elim (Bool-cases (ltb (length input) rem)) [
            | inl l ↦
                Paths.short some_wait (omega (arith, ltb→lt (length input) rem l))
                  (first ∙ ap (pick false) l)
            | inr l ↦
                Paths.filled some_wait (omega (arith, ltb-false (length input) rem l))
                  (first ∙ ap (pick false) l)
          ]
    ]

-- `poly1305_update` on a context that poly1305_init or poly1305_update left: it adds to the message that
-- was taken the bytes of the input one after the other, whatever part of a block waited before.
pub poly1305_update_lem :
    (ctx : PolyCtx) (input : Bytes)
    → IsPolyCtx ctx
    → pending (poly1305_update ctx input) ≡ absorbed (pending ctx) input
poly1305_update_lem ctx input ok = elim (paths ctx input ok.1) [
  | Paths.fresh z e ↦
      ap pending e
      ∙ update_blocks_lem ctx input ok.0
      ∙ ap (λ n. absorbed (ctx.state, take n ctx.buf) input) (sym z)
  | Paths.short w l e ↦
      let waits : Bytes = take ctx.num ctx.buf in
      ap pending e
      ∙ ap (λ (p : Bytes). let out : PolyInternal × Bytes = (ctx.state, p) in out)
          (take-copy_at ctx.buf ctx.num input (ctx.num + length input) (omega arith) refl)
      ∙ sym (
          absorb-short 16 (poly1305_block 1) ctx.state waits input
            (omega (arith, length-take ctx.num ctx.buf (omega arith))))
  | Paths.filled w m e ↦ ap pending e ∙ filled_path ctx input ok w m
]
  where
    filled_path :
        (ctx : PolyCtx) (input : Bytes)
        → IsPolyCtx ctx
        → 0 < ctx.num
        → 16 ≤ ctx.num + length input
        → pending (update_blocks (fill_block ctx input) (drop (16 - ctx.num) input))
          ≡ absorbed (pending ctx) input
    filled_path ctx input ok w m =
        let rem : ℕ = 16 - ctx.num in
        let waits : Bytes = take ctx.num ctx.buf in
        let more : Bytes = take rem input in
        let rest : Bytes = drop rem input in
        let buf : Bytes = copy_at ctx.buf ctx.num more in
        let len_more : length more ≡ rem = length-take rem input (omega arith) in
        let len_waits : length waits ≡ ctx.num = length-take ctx.num ctx.buf (omega arith) in
        let len_buf : length buf ≡ 16 = length-copy_at ctx.buf ctx.num more (omega arith) ∙ ok.0 in
        let is_block : buf ≡ waits ++ more =
          sym (take-all buf 16 (omega arith))
          ∙ take-copy_at ctx.buf ctx.num more 16 (omega arith) (omega arith) in
        update_blocks_lem (fill_block ctx input) rest len_buf
        ∙ ap (λ (s : PolyInternal × Bytes). absorbed s rest)
            (sym (blocks_core_lem ctx.state buf (omega arith))
              ∙ ap (absorbed (ctx.state, [])) is_block
              ∙ absorb-block 16 (poly1305_block 1) ctx.state [] (waits ++ more)
                  (omega (arith, length-append waits more))
                  (omega (arith, length-append waits more))
              ∙ sym (
                  absorb-block 16 (poly1305_block 1) ctx.state waits more (omega arith)
                    (omega arith)))
        ∙ sym (absorb-append 16 (poly1305_block 1) (pending ctx) more rest)
        ∙ ap (absorbed (pending ctx)) (take-append_drop rem input)

pub poly1305_update-IsPolyCtx :
    (ctx : PolyCtx) (input : Bytes) → IsPolyCtx ctx → IsPolyCtx (poly1305_update ctx input)
poly1305_update-IsPolyCtx ctx input ok = elim (paths ctx input ok.1) [
  | Paths.fresh z e ↦ subst IsPolyCtx (sym e) (update_blocks-IsPolyCtx ctx input ok.0)
  | Paths.short w l e ↦
      subst IsPolyCtx (sym e) (length-copy_at ctx.buf ctx.num input (omega arith) ∙ ok.0, l)
  | Paths.filled w m e ↦
      let more : Bytes = take (16 - ctx.num) input in
      let len_more : length more ≡ 16 - ctx.num = length-take (16 - ctx.num) input (omega arith) in
      subst IsPolyCtx (sym e) (
        update_blocks-IsPolyCtx (fill_block ctx input) (drop (16 - ctx.num) input)
          (length-copy_at ctx.buf ctx.num more (omega arith) ∙ ok.0))
]
