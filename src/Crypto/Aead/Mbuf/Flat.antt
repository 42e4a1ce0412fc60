-- ===== src/Crypto/Aead/Mbuf/Flat.antt =====
-- The mbuf versions against the versions on one buffer.
use mathlib.Core.List.{append_assoc, append-nil}
use wireguard_freebsd.Prelude.{
  subst, ℕ, ◌+◌, ◌-◌, ◌≤◌, ◌<◌, ◌≡◌, refl, sym, ap, ap₂, ◌∙◌, ◌⊎◌, inl, inr, List, [], ◌∷◌, ◌++◌,
  Bytes, Bool, true, false, Option, none, some, length, take, drop, flatten, replicate, list_eq,
  list_eq_iff, ltb, ltb-false, ltb→lt, if◌then◌else◌, Bool-cases, arith, length-take, length-drop,
  take-all, drop-all, length-append, Errno, success, enomem, emsgsize, ebadmsg,
}
use wireguard_freebsd.Crypto.Chacha.{ChachaCtx, chacha20_init, chacha20, chacha20_block}
use wireguard_freebsd.Crypto.Chacha.Stream.{crypt_bytes}
use wireguard_freebsd.Crypto.Chacha.Blocks.{chacha20_lem, length-chacha20}
use wireguard_freebsd.Crypto.Poly.{PolyCtx, poly1305_init, poly1305_update, poly1305_final}
use wireguard_freebsd.Crypto.Poly.Mac.{updates, stack_ctx, poly1305_tag, poly1305_parts}
use wireguard_freebsd.Crypto.Aead.{
  one_time_key, authenticate, pad0, lens, chacha20poly1305_encrypt, chacha20poly1305_decrypt,
}
use wireguard_freebsd.Crypto.Aead.Open.{authenticate_lem, Outcome, outcome}
use wireguard_freebsd.Crypto.Aead.Mbuf.{
  Mbuf, MbufApi, Crypt, crypt_chain, crypt_and_tag, chacha20poly1305_encrypt_mbuf,
  chacha20poly1305_decrypt_mbuf,
}
use wireguard_freebsd.Crypto.Aead.Mbuf.Chain.{crypt_chain_lem}

-- M_ASSERTPKTHDR and m_sanity: the header has the number of bytes of the chain.
abbrev pub IsMbuf : Mbuf → Type 0
IsMbuf m = length (flatten m.segments) ≡ m.pkthdr_len

-- What mbuf(9) documents of the three functions.
pub record IsMbufApi (api : MbufApi) : Type 0 where
  pub m_copydata_lem :
      (m : Mbuf) (off len : ℕ)
      → IsMbuf m
      → off + len ≤ m.pkthdr_len
      → api.m_copydata m off len ≡ take len (drop off (flatten m.segments))
  pub m_adj_lem :
      (m : Mbuf) (n : ℕ)
      → IsMbuf m
      → n ≤ m.pkthdr_len
      → (flatten (api.m_adj m n).segments ≡ take (m.pkthdr_len - n) (flatten m.segments))
        × ((api.m_adj m n).pkthdr_len ≡ m.pkthdr_len - n)
  pub m_append_lem :
      (m : Mbuf) (bytes : Bytes)
      → IsMbuf m
      → (api.m_append m bytes).0 ≡ true
      → (flatten (api.m_append m bytes).1.segments ≡ flatten m.segments ++ bytes)
        × ((api.m_append m bytes).1.pkthdr_len ≡ m.pkthdr_len + length bytes)

updates-append :
    (p : PolyCtx) (xs ys : List Bytes) → updates p (xs ++ ys) ≡ updates (updates p xs) ys
updates-append p [] ys = refl
updates-append p (x ∷ xs) ys = updates-append (poly1305_update p x) xs ys

flatten-append : (xs ys : List Bytes) → flatten (xs ++ ys) ≡ flatten xs ++ flatten ys
flatten-append [] ys = refl
flatten-append (x ∷ xs) ys =
    ap (λ (t : Bytes). x ++ t) (flatten-append xs ys)
    ∙ sym (append_assoc x (flatten xs) (flatten ys))

-- The tag of a text in parts, without associated data.
tag_of_parts :
    (block0 : Bytes) (parts : List Bytes) (len : ℕ)
    → length (flatten parts) ≡ len
    → poly1305_final (
        poly1305_update
          (poly1305_update (updates (poly1305_init stack_ctx block0) parts) (pad0 len))
          (lens 0 len))
      ≡ authenticate block0 [] (flatten parts)
tag_of_parts block0 parts len h =
    let text : Bytes = flatten parts in
    let ends : List Bytes = pad0 len ∷ lens 0 len ∷ [] in
    let tag_at : ℕ → Bytes = λ n. poly1305_tag block0 (text ++ pad0 n ++ lens 0 n) in
    ap poly1305_final (sym (updates-append (poly1305_init stack_ctx block0) parts ends))
    ∙ poly1305_parts stack_ctx block0 (parts ++ ends) refl
    ∙ ap (poly1305_tag block0) (
        flatten-append parts ends
        ∙ ap (λ (t : Bytes). text ++ (pad0 len ++ t)) (append-nil (lens 0 len))
        ∙ sym (append_assoc text (pad0 len) (lens 0 len)))
    ∙ ap tag_at (sym h)
    ∙ sym (authenticate_lem block0 [] text)

-- The loop and the tag, on the bytes of the whole chain.
crypt_and_tag_lem :
    (encrypt : Bool) (m : Mbuf) (nonce : ℕ) (key : Bytes)
    → IsMbuf m
    → let start = one_time_key key nonce in
      let out = crypt_and_tag encrypt m nonce key in
      let dst = (chacha20 start.1 (flatten m.segments)).0 in
      (flatten out.1.segments ≡ dst)
      × (out.0 ≡ authenticate start.0 [] (if encrypt then dst else flatten m.segments))
unfolding crypt_and_tag one_time_key
crypt_and_tag_lem encrypt m nonce key ok =
    let start = one_time_key key nonce in
    let src : Bytes = flatten m.segments in
    let dst : Bytes = (chacha20 start.1 src).0 in
    let stream : Bytes = start.0 ++ replicate 32 0 in
    let len_stream : length stream ≡ 64 = omega (
      arith,
      length-append start.0 (replicate 32 0),
      length-chacha20 (chacha20_init key nonce) (replicate 32 0),
    ) in
    let s : Crypt = record {
      chacha = start.1;
      stream = stream;
      leftover = 0;
      poly = poly1305_init stack_ctx start.0;
    } in
    let run = crypt_chain_lem encrypt s m.segments (len_stream, omega arith) in
    let bufs : List Bytes = (crypt_chain encrypt s m.segments).0 in
    let written : flatten bufs ≡ dst =
      ap (λ (r : Bytes × (ChachaCtx × Bytes)). r.0) (sym run.0)
      ∙ ap (λ (t : Bytes). (crypt_bytes chacha20_block (start.1, t) src).0)
          (drop-all stream 64 (omega arith))
      ∙ ap (λ (r : Bytes × ChachaCtx). r.0) (sym (chacha20_lem start.1 src)) in
    let text : List Bytes = if encrypt then bufs else m.segments in
    let texts : flatten text ≡ (if encrypt then dst else src) =
      chosen encrypt bufs m.segments dst written in
    let len_text : length (flatten text) ≡ m.pkthdr_len =
      ap length texts ∙ chosen_length encrypt dst src (length-chacha20 start.1 src) ∙ ok in
    (
      written,
      ap
            (λ p.
              poly1305_final
                (poly1305_update (poly1305_update p (pad0 m.pkthdr_len)) (lens 0 m.pkthdr_len)))
            run.1
          ∙ tag_of_parts start.0 text m.pkthdr_len len_text
          ∙ ap (authenticate start.0 []) texts,
    )
  where
    chosen :
        (e : Bool) (xs ys : List Bytes) (d : Bytes)
        → flatten xs ≡ d
        → flatten (if e then xs else ys) ≡ (if e then d else flatten ys)
    chosen true xs ys d h = h
    chosen false xs ys d h = refl

    chosen_length :
        (e : Bool) (d s : Bytes) → length d ≡ length s → length (if e then d else s) ≡ length s
    chosen_length true d s h = h
    chosen_length false d s h = refl

module _ (api : MbufApi) (law : IsMbufApi api) where
  -- `chacha20poly1305_encrypt_mbuf` on a chain whose header has its length: it returns ENOMEM, or it
  -- returns 0 and the chain, whose header again has its length, holds what `chacha20poly1305_encrypt`
  -- makes of the bytes of the chain without associated data, however they lie in the mbufs.
  pub encrypt_mbuf_lem :
      (m : Mbuf) (nonce : ℕ) (key : Bytes)
      → IsMbuf m
      → let out = chacha20poly1305_encrypt_mbuf api m nonce key in
        (out.0 ≡ enomem)
        ⊎ ((out.0 ≡ success)
            × (flatten out.1.segments ≡ chacha20poly1305_encrypt (flatten m.segments) [] nonce key)
            × IsMbuf out.1)
  unfolding chacha20poly1305_encrypt_mbuf chacha20poly1305_encrypt crypt_and_tag
  encrypt_mbuf_lem m nonce key ok =
      let start = one_time_key key nonce in
      let both = crypt_and_tag_lem true m nonce key ok in
      let out = crypt_and_tag true m nonce key in
      let still : IsMbuf out.1 =
        ap length both.0 ∙ length-chacha20 start.1 (flatten m.segments) ∙ ok in
      let code : Bool → Errno = λ b. if b then success else enomem in
      elim (Bool-cases (api.m_append out.1 out.0).0) [
        | inl e ↦
            let appended = law.m_append_lem out.1 out.0 still e in
            inr (
              ap code e,
              appended.0 ∙ ap₂ (λ (x y : Bytes). x ++ y) both.0 both.1,
              ap length appended.0
                  ∙ length-append (flatten out.1.segments) out.0
                  ∙ ap (λ n. n + length out.0) still
                  ∙ sym appended.1,
            )
        | inr e ↦ inl (ap code e)
      ]

  -- What decryption compares and leaves in a chain of at least 16 bytes.
  decrypt_mbuf_parts :
      (m : Mbuf) (nonce : ℕ) (key : Bytes)
      → IsMbuf m
      → 16 ≤ m.pkthdr_len
      → let start = one_time_key key nonce in
        let out = crypt_and_tag false (api.m_adj m 16) nonce key in
        let src = flatten m.segments in
        let text = take (length src - 16) src in
        (api.m_copydata m (m.pkthdr_len - 16) 16 ≡ drop (length src - 16) src)
        × (out.0 ≡ authenticate start.0 [] text)
        × (flatten out.1.segments ≡ (chacha20 start.1 text).0)
  decrypt_mbuf_parts m nonce key ok long =
      let start = one_time_key key nonce in
      let src : Bytes = flatten m.segments in
      let len : ℕ = length src - 16 in
      let m1 : Mbuf = api.m_adj m 16 in
      let adj = law.m_adj_lem m 16 ok long in
      let same : m.pkthdr_len - 16 ≡ len = omega arith in
      let text : flatten m1.segments ≡ take len src = adj.0 ∙ ap (λ n. take n src) same in
      let still : IsMbuf m1 =
        ap length text ∙ length-take len src (omega arith) ∙ sym same ∙ sym adj.1 in
      let both = crypt_and_tag_lem false m1 nonce key still in
      (
        law.m_copydata_lem m (m.pkthdr_len - 16) 16 ok (omega arith)
            ∙ take-all (drop (m.pkthdr_len - 16) src) 16
                (omega (arith, length-drop (m.pkthdr_len - 16) src))
            ∙ ap (λ n. drop n src) same,
        both.1 ∙ ap (authenticate start.0 []) text,
        both.0 ∙ ap (λ (t : Bytes). (chacha20 start.1 t).0) text,
      )

  -- `chacha20poly1305_decrypt_mbuf` on a chain whose header has its length: it returns EMSGSIZE and
  -- leaves the chain as it is when the chain has fewer than 16 bytes, it returns EBADMSG when
  -- `chacha20poly1305_decrypt` refuses the bytes of the chain, and else it returns 0 and the chain
  -- holds the plain text that `chacha20poly1305_decrypt` gives.
  pub decrypt_mbuf_lem :
      (m : Mbuf) (nonce : ℕ) (key : Bytes)
      → IsMbuf m
      → let out = chacha20poly1305_decrypt_mbuf api m nonce key in
        let flat = chacha20poly1305_decrypt (flatten m.segments) [] nonce key in
        ((m.pkthdr_len < 16) × (out ≡ (emsgsize, m)) × (flat ≡ none))
        ⊎ (((16 ≤ m.pkthdr_len) × (out.0 ≡ ebadmsg) × (flat ≡ none))
            ⊎ ((16 ≤ m.pkthdr_len) × (out.0 ≡ success) × (flat ≡ some (flatten out.1.segments))))
  unfolding chacha20poly1305_decrypt_mbuf
  decrypt_mbuf_lem m nonce key ok =
      let start = one_time_key key nonce in
      let src : Bytes = flatten m.segments in
      let len : ℕ = length src - 16 in
      let text : Bytes = take len src in
      let mac : Bytes = authenticate start.0 [] text in
      let out = crypt_and_tag false (api.m_adj m 16) nonce key in
      let code : Bool → Errno = λ b. if b then success else ebadmsg in
      let whole : Bool → Errno → Errno × Mbuf = λ b e. if b then (emsgsize, m) else (e, out.1) in
      let mbuf_mac : Bytes = api.m_copydata m (m.pkthdr_len - 16) 16 in
      let found : Errno = code (list_eq out.0 mbuf_mac) in
      elim (Bool-cases (ltb m.pkthdr_len 16)) [
        | inl h ↦
            let short = ltb→lt m.pkthdr_len 16 h in
            inl (short, ap (λ b. whole b found) h, too_short m nonce key (omega arith))
        | inr h ↦
            let long = ltb-false m.pkthdr_len 16 h in
            let parts = decrypt_mbuf_parts m nonce key ok long in
            let tests : list_eq out.0 mbuf_mac ≡ list_eq mac (drop len src) =
              ap₂ list_eq parts.1 parts.0 in
            let result : chacha20poly1305_decrypt_mbuf api m nonce key ≡ (found, out.1) =
              ap (λ b. whole b found) h in
            inr (elim (outcome src [] nonce key) [
              | Outcome.too_short l e ↦ absurd (omega arith)
              | Outcome.forged l ne e ↦
                  let differs : list_eq mac (drop len src) ≡ false =
                    ground (arith, list_eq_iff mac (drop len src)) in
                  inl (long, ap (λ (r : Errno × Mbuf). r.0) result ∙ ap code (tests ∙ differs), e)
              | Outcome.sealed l t e ↦
                  let agrees : list_eq mac (drop len src) ≡ true =
                    (list_eq_iff mac (drop len src)).1 (sym t) in
                  inr (
                    long,
                    ap (λ (r : Errno × Mbuf). r.0) result ∙ ap code (tests ∙ agrees),
                    e
                        ∙ ap (λ (u : Bytes). let r : Option Bytes = some u in r)
                            (sym parts.2
                              ∙ ap (λ (r : Errno × Mbuf). flatten r.1.segments) (sym result)),
                  )
            ])
      ]
    where
      too_short :
          (m : Mbuf) (nonce : ℕ) (key : Bytes)
          → length (flatten m.segments) < 16
          → chacha20poly1305_decrypt (flatten m.segments) [] nonce key ≡ none
      too_short m nonce key h = elim (outcome (flatten m.segments) [] nonce key) [
        | Outcome.too_short l e ↦ e
        | Outcome.forged l ne e ↦ e
        | Outcome.sealed l t e ↦ absurd (omega arith)
      ]

  -- The header of a chain keeps its length when the chain is decrypted.
  pub decrypt_mbuf-IsMbuf :
      (m : Mbuf) (nonce : ℕ) (key : Bytes)
      → IsMbuf m
      → IsMbuf (chacha20poly1305_decrypt_mbuf api m nonce key).1
  unfolding chacha20poly1305_decrypt_mbuf crypt_and_tag
  decrypt_mbuf-IsMbuf m nonce key ok =
      let m1 : Mbuf = api.m_adj m 16 in
      let start = one_time_key key nonce in
      let out = crypt_and_tag false m1 nonce key in
      let code : Errno =
        if list_eq out.0 (api.m_copydata m (m.pkthdr_len - 16) 16) then success else ebadmsg in
      let Good : Errno × Mbuf → Type 0 = λ r. IsMbuf r.1 in
      elim (Bool-cases (ltb m.pkthdr_len 16)) [
        | inl h ↦ subst (λ b. Good (if b then (emsgsize, m) else (code, out.1))) (sym h) ok
        | inr h ↦
            let adj = law.m_adj_lem m 16 ok (ltb-false m.pkthdr_len 16 h) in
            let still : IsMbuf m1 =
              ap length adj.0
              ∙ length-take (m.pkthdr_len - 16) (flatten m.segments) (omega arith)
              ∙ sym adj.1 in
            let both = crypt_and_tag_lem false m1 nonce key still in
            subst (λ b. Good (if b then (emsgsize, m) else (code, out.1))) (sym h)
              (ap length both.0 ∙ length-chacha20 start.1 (flatten m1.segments) ∙ still)
      ]
