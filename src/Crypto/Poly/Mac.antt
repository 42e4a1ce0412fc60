-- ===== src/Crypto/Poly/Mac.antt =====
-- The tag of Poly1305 as a function of the key and the whole message, and the calls of poly1305_init,
-- poly1305_update and poly1305_final that compute it in parts.
use wireguard_freebsd.Prelude.{
  flatten, ℕ, suc, ◌+◌, ◌-◌, ◌/◌, ◌<◌, ◌≡◌, refl, sym, ap, ◌∙◌, List, [], ◌∷◌, ◌++◌, length, take,
  drop, Bytes, arith, ◌==◌, ltb, Bool, if◌then◌else◌, inl, inr, each_block, copy_at, replicate,
  length-take, take-copy_at, length-copy_at, length-replicate, take-all, Bool-cases, if_cases,
}
use wireguard_freebsd.Crypto.Poly.{
  PolyCtx, PolyInternal, poly1305_block, poly1305_blocks_core, poly1305_init, poly1305_init_core,
  poly1305_update, update_blocks, poly1305_final, add_nonce, PolyNonce, poly1305_emit_core, padded,
}
use wireguard_freebsd.Crypto.Poly.Update.{
  pending, IsPolyCtx, absorbed, poly1305_update_lem, poly1305_update-IsPolyCtx,
}
use wireguard_freebsd.Crypto.Poly.Absorb.{absorb, absorb-append}

-- The end of the message: a part of a block is a block with a byte 1 and zeros, and without the bit of
-- whole blocks.
pub finish : PolyNonce → PolyInternal × Bytes → Bytes
finish nonce (st, []) = poly1305_emit_core st nonce
finish nonce (st, b ∷ bs) =
    poly1305_emit_core (poly1305_block 0 st (b ∷ bs ++ (1 ∷ replicate (15 - suc (length bs)) 0)))
      nonce

finish_whole :
    (nonce : PolyNonce) (st : PolyInternal) (p : Bytes)
    → length p ≡ 0
    → finish nonce (st, p) ≡ poly1305_emit_core st nonce
unfolding finish
finish_whole nonce st [] h = refl
finish_whole nonce st (b ∷ bs) h = absurd (omega arith)

finish_part :
    (nonce : PolyNonce) (st : PolyInternal) (p : Bytes)
    → 0 < length p
    → finish nonce (st, p)
      ≡ poly1305_emit_core (poly1305_block 0 st (p ++ (1 ∷ replicate (15 - length p) 0))) nonce
unfolding finish
finish_part nonce st [] h = absurd (omega arith)
finish_part nonce st (b ∷ bs) h = refl

padded_lem :
    (ctx : PolyCtx)
    → IsPolyCtx ctx
    → let waits = take ctx.num ctx.buf in padded ctx ≡ waits ++ (1 ∷ replicate (15 - ctx.num) 0)
padded_lem ctx ok =
    let end : Bytes = 1 ∷ replicate (15 - ctx.num) 0 in
    let len_end : ctx.num + length end ≡ 16 =
      omega (arith, length-replicate {A = ℕ} (15 - ctx.num) 0) in
    sym (take-all (padded ctx) 16 (omega (arith, length-copy_at ctx.buf ctx.num end (omega arith))))
    ∙ take-copy_at ctx.buf ctx.num end 16 (omega arith) len_end

one_block :
    (st : PolyInternal) (xs : Bytes)
    → length xs ≡ 16
    → poly1305_blocks_core st xs 0 ≡ poly1305_block 0 st xs
unfolding poly1305_blocks_core
one_block st xs h =
    let n : length xs / 16 ≡ 1 = omega arith in
    ap (λ k. each_block 16 (poly1305_block 0) k st xs) n
    ∙ ap (poly1305_block 0 st) (take-all xs 16 (omega arith))

pub poly1305_final_lem :
    (ctx : PolyCtx) → IsPolyCtx ctx → poly1305_final ctx ≡ finish ctx.nonce (pending ctx)
unfolding poly1305_final
poly1305_final_lem ctx ok =
    let waits : Bytes = take ctx.num ctx.buf in
    let len_waits : length waits ≡ ctx.num = length-take ctx.num ctx.buf (omega arith) in
    let out : Bool → Bytes = λ b.
      poly1305_emit_core (if b then ctx.state else poly1305_blocks_core ctx.state (padded ctx) 0)
        ctx.nonce in
    elim (Bool-cases (ctx.num == 0)) [
      | inl e ↦
          let none_wait : length waits ≡ 0 = ground arith in
          ap out e ∙ sym (finish_whole ctx.nonce ctx.state waits none_wait)
      | inr e ↦
          let some_wait : 0 < length waits = ground arith in
          let end : ℕ → Bytes = λ n. waits ++ (1 ∷ replicate (15 - n) 0) in
          let len_padded : length (padded ctx) ≡ 16 =
            length-copy_at ctx.buf ctx.num (1 ∷ replicate (15 - ctx.num) 0)
              (omega (arith, length-replicate {A = ℕ} (15 - ctx.num) 0))
            ∙ ok.0 in
          ap out e
          ∙ ap (λ (st : PolyInternal). poly1305_emit_core st ctx.nonce)
              (one_block ctx.state (padded ctx) len_padded
                ∙ ap (poly1305_block 0 ctx.state) (padded_lem ctx ok ∙ ap end (sym len_waits)))
          ∙ sym (finish_part ctx.nonce ctx.state waits some_wait)
    ]

poly1305_update-nonce :
    (ctx : PolyCtx) (input : Bytes) → (poly1305_update ctx input).nonce ≡ ctx.nonce
unfolding poly1305_update update_blocks
poly1305_update-nonce ctx input =
    let rem = 16 - ctx.num in
    let full : Bytes = copy_at ctx.buf ctx.num (take rem input) in
    let keeps : PolyCtx → Type 0 = λ c. c.nonce ≡ ctx.nonce in
    let a : PolyCtx = update_blocks ctx input in
    let b : PolyCtx = record ctx {
      buf = copy_at ctx.buf ctx.num input;
      num = ctx.num + length input;
    } in
    let c : PolyCtx =
      update_blocks (record ctx { state = poly1305_blocks_core ctx.state full 1; buf = full })
        (drop rem input) in
    if_cases keeps (ctx.num == 0) a (if ltb (length input) rem then b else c) refl
      (if_cases keeps (ltb (length input) rem) b c refl refl)

-- The calls of poly1305_update on the parts of a message, in order.
abbrev pub updates : PolyCtx → List Bytes → PolyCtx
updates ctx [] = ctx
updates ctx (part ∷ parts) = updates (poly1305_update ctx part) parts

updates-IsPolyCtx :
    (ctx : PolyCtx) (parts : List Bytes) → IsPolyCtx ctx → IsPolyCtx (updates ctx parts)
updates-IsPolyCtx ctx [] ok = ok
updates-IsPolyCtx ctx (part ∷ parts) ok =
    updates-IsPolyCtx (poly1305_update ctx part) parts (poly1305_update-IsPolyCtx ctx part ok)

updates_lem :
    (ctx : PolyCtx) (parts : List Bytes)
    → IsPolyCtx ctx
    → pending (updates ctx parts) ≡ absorbed (pending ctx) (flatten parts)
unfolding absorb
updates_lem ctx [] ok = refl
updates_lem ctx (part ∷ parts) ok =
    updates_lem (poly1305_update ctx part) parts (poly1305_update-IsPolyCtx ctx part ok)
    ∙ ap (λ (s : PolyInternal × Bytes). absorbed s (flatten parts))
        (poly1305_update_lem ctx part ok)
    ∙ sym (absorb-append 16 (poly1305_block 1) (pending ctx) part (flatten parts))

updates-nonce : (ctx : PolyCtx) (parts : List Bytes) → (updates ctx parts).nonce ≡ ctx.nonce
updates-nonce ctx [] = refl
updates-nonce ctx (part ∷ parts) =
    updates-nonce (poly1305_update ctx part) parts ∙ poly1305_update-nonce ctx part

-- A context on the stack, with a buffer of 16 bytes.
abbrev pub stack_ctx : PolyCtx
stack_ctx = record {
  state = poly1305_init_core [];
  nonce = record { n0 = 0; n1 = 0; n2 = 0; n3 = 0 };
  buf = replicate 16 0;
  num = 0;
}

-- The tag of a message under a key of 32 bytes, by bytes.
pub poly1305_tag : Bytes → Bytes → Bytes
poly1305_tag key message =
    finish (poly1305_init stack_ctx key).nonce (absorbed (poly1305_init_core key, []) message)

-- However a message is cut into parts, and whatever a context with a buffer of 16 bytes held before,
-- `poly1305_init`, `poly1305_update` of each part and `poly1305_final` compute the tag of the message:
-- the last part of a block is padded with a byte 1 and zeros, and every whole block counts as it is.
pub poly1305_parts :
    (ctx : PolyCtx) (key : Bytes) (parts : List Bytes)
    → length ctx.buf ≡ 16
    → poly1305_final (updates (poly1305_init ctx key) parts) ≡ poly1305_tag key (flatten parts)
unfolding poly1305_tag poly1305_init
poly1305_parts ctx key parts h =
    let start : PolyCtx = poly1305_init ctx key in
    let ok : IsPolyCtx start = (h, omega arith) in
    let end : PolyCtx = updates start parts in
    let whole : PolyInternal × Bytes = absorbed (poly1305_init_core key, []) (flatten parts) in
    poly1305_final_lem end (updates-IsPolyCtx start parts ok)
    ∙ ap (finish end.nonce) (updates_lem start parts ok)
    ∙ ap (λ n. finish n whole) (updates-nonce start parts)

pub length-poly1305_final : (ctx : PolyCtx) → length (poly1305_final ctx) ≡ 16
unfolding poly1305_final poly1305_emit_core add_nonce
length-poly1305_final ctx = refl
