-- ===== src/Crypto/Aead/Open.antt =====
-- Sealing and opening a buffer (chacha20poly1305_encrypt, chacha20poly1305_decrypt and the xchacha20
-- versions of crypto.c).
use mathlib.Core.List.{append_assoc, append-nil}
use mathlib.Core.Option.{some-injective}
use mathlib.Core.Bool.{true≢false}
use wireguard_freebsd.Prelude.{
  ℕ, ◌+◌, ◌-◌, ◌^◌, ◌≤◌, ◌<◌, ◌≢◌, ◌≡◌, ◌↔◌, inl, inr, refl, sym, ap, ap₂, ◌∙◌, [], ◌∷◌, ◌++◌,
  Option, none, some, Bytes, Bool, true, false, Bool-cases, length, take, drop, list_eq,
  list_eq_iff, ltb, ltb→lt, ltb-false, length-append, take-append, drop-append, take-append_drop,
  if◌then◌else◌, arith,
}
use wireguard_freebsd.Crypto.Chacha.{chacha20, hchacha20}
use wireguard_freebsd.Crypto.Word.{get_unaligned_le64, le32_bytes}
use wireguard_freebsd.Crypto.Chacha.Blocks.{length-chacha20, chacha20-chacha20}
use wireguard_freebsd.Crypto.Poly.Mac.{
  poly1305_tag, poly1305_parts, stack_ctx, length-poly1305_final,
}
use wireguard_freebsd.Crypto.Poly.{poly1305_init, poly1305_update}
use wireguard_freebsd.Crypto.Aead.{
  one_time_key, authenticate, pad0, lens, chacha20poly1305_encrypt, chacha20poly1305_decrypt,
  xchacha20poly1305_encrypt, xchacha20poly1305_decrypt,
}

-- The message that RFC 8439, section 2.8, authenticates.
abbrev pub mac_data : Bytes → Bytes → Bytes
mac_data ad text =
    ad ++ pad0 (length ad) ++ text ++ pad0 (length text) ++ lens (length ad) (length text)

-- The five calls of poly1305_update make the tag of the associated data and the text, each padded with
-- zeros to whole blocks, and of their lengths.
pub authenticate_lem :
    (block0 ad text : Bytes) → authenticate block0 ad text ≡ poly1305_tag block0 (mac_data ad text)
unfolding authenticate
authenticate_lem block0 ad text =
    let a : Bytes = pad0 (length ad) in
    let b : Bytes = pad0 (length text) in
    let c : Bytes = lens (length ad) (length text) in
    poly1305_parts stack_ctx block0 (ad ∷ a ∷ text ∷ b ∷ c ∷ []) refl
    ∙ ap (poly1305_tag block0) (joined ad a text b c)
  where
    joined : (p q r s t : Bytes) → p ++ (q ++ (r ++ (s ++ (t ++ [])))) ≡ p ++ q ++ r ++ s ++ t
    joined p q r s t =
        ap (λ (u : Bytes). p ++ (q ++ (r ++ (s ++ u)))) (append-nil t)
        ∙ sym (append_assoc p q (r ++ (s ++ t)))
        ∙ sym (append_assoc (p ++ q) r (s ++ t))
        ∙ sym (append_assoc (p ++ q ++ r) s t)

-- The bytes of the text that RFC 8439 makes of a plain text: the plain text xored with the key stream
-- behind its first block, and the tag of RFC 8439 behind it.
pub chacha20poly1305_encrypt_lem :
    (src ad : Bytes) (nonce : ℕ) (key : Bytes)
    → let start = one_time_key key nonce in
      let dst = (chacha20 start.1 src).0 in
      chacha20poly1305_encrypt src ad nonce key ≡ dst ++ poly1305_tag start.0 (mac_data ad dst)
unfolding chacha20poly1305_encrypt
chacha20poly1305_encrypt_lem src ad nonce key =
    let start = one_time_key key nonce in
    let dst : Bytes = (chacha20 start.1 src).0 in
    ap (λ (t : Bytes). dst ++ t) (authenticate_lem start.0 ad dst)

length-authenticate : (block0 ad text : Bytes) → length (authenticate block0 ad text) ≡ 16
unfolding authenticate
length-authenticate block0 ad text = length-poly1305_final (
    poly1305_update
      (poly1305_update
        (poly1305_update
          (poly1305_update (poly1305_update (poly1305_init stack_ctx block0) ad) (pad0 (length ad)))
          text)
        (pad0 (length text)))
      (lens (length ad) (length text)))

-- A sealed text is 16 bytes longer than the plain text.
pub length-chacha20poly1305_encrypt :
    (src ad : Bytes) (nonce : ℕ) (key : Bytes)
    → length (chacha20poly1305_encrypt src ad nonce key) ≡ length src + 16
unfolding chacha20poly1305_encrypt
length-chacha20poly1305_encrypt src ad nonce key =
    let start = one_time_key key nonce in
    let dst : Bytes = (chacha20 start.1 src).0 in
    length-append dst (authenticate start.0 ad dst)
    ∙ ap₂ (λ m n. m + n) (length-chacha20 start.1 src) (length-authenticate start.0 ad dst)

-- What the two tests of chacha20poly1305_decrypt decide.
opened :
    (src ad : Bytes) (nonce : ℕ) (key text tag : Bytes)
    → src ≡ text ++ tag
    → length tag ≡ 16
    → tag ≡ authenticate (one_time_key key nonce).0 ad text
    → chacha20poly1305_decrypt src ad nonce key ≡ some (chacha20 (one_time_key key nonce).1 text).0
unfolding chacha20poly1305_decrypt
opened src ad nonce key text tag e l t =
    let start = one_time_key key nonce in
    let len : ℕ = length src - 16 in
    let len_src : length src ≡ length text + 16 =
      ap length e ∙ length-append text tag ∙ ap (λ n. length text + n) l in
    let long : ltb (length src) 16 ≡ false = ground arith in
    let first : take len src ≡ text = ap (take len) e ∙ take-append text tag len (omega arith) in
    let last : drop len src ≡ tag = ap (drop len) e ∙ drop-append text tag len (omega arith) in
    let same : list_eq (authenticate start.0 ad (take len src)) (drop len src) ≡ true =
      (list_eq_iff (authenticate start.0 ad (take len src)) (drop len src)).1
        (ap (authenticate start.0 ad) first ∙ sym t ∙ sym last) in
    let out : Option Bytes = some (chacha20 start.1 (take len src)).0 in
    let test : Bool → Option Bytes = λ b.
      if b
      then none
      else if list_eq (authenticate start.0 ad (take len src)) (drop len src)
      then out
      else none in
    ap test long
    ∙ ap (λ (b : Bool). let r : Option Bytes = if b then out else none in r) same
    ∙ ap (λ (u : Bytes). let r : Option Bytes = some (chacha20 start.1 u).0 in r) first

-- `chacha20poly1305_decrypt` of what `chacha20poly1305_encrypt` wrote, with the same associated data,
-- nonce and key, returns true and gives the plain text.
pub decrypt-encrypt :
    (src ad : Bytes) (nonce : ℕ) (key : Bytes)
    → chacha20poly1305_decrypt (chacha20poly1305_encrypt src ad nonce key) ad nonce key ≡ some src
unfolding chacha20poly1305_encrypt
decrypt-encrypt src ad nonce key =
    let start = one_time_key key nonce in
    let dst : Bytes = (chacha20 start.1 src).0 in
    opened (dst ++ authenticate start.0 ad dst) ad nonce key dst (authenticate start.0 ad dst) refl
      (length-authenticate start.0 ad dst) refl
    ∙ ap (λ (u : Bytes). let r : Option Bytes = some u in r) (chacha20-chacha20 start.1 src)

-- The ways out of chacha20poly1305_decrypt.
pub data Outcome (src ad : Bytes) (nonce : ℕ) (key : Bytes) : Type 0 where
  too_short :
      length src < 16 → chacha20poly1305_decrypt src ad nonce key ≡ none → Outcome src ad nonce key
  forged :
      16 ≤ length src
      → drop (length src - 16) src
        ≢ authenticate (one_time_key key nonce).0 ad (take (length src - 16) src)
      → chacha20poly1305_decrypt src ad nonce key ≡ none
      → Outcome src ad nonce key
  sealed :
      16 ≤ length src
      → drop (length src - 16) src
        ≡ authenticate (one_time_key key nonce).0 ad (take (length src - 16) src)
      → chacha20poly1305_decrypt src ad nonce key
        ≡ some (chacha20 (one_time_key key nonce).1 (take (length src - 16) src)).0
      → Outcome src ad nonce key

pub outcome : (src ad : Bytes) (nonce : ℕ) (key : Bytes) → Outcome src ad nonce key
unfolding chacha20poly1305_decrypt
outcome src ad nonce key =
    let start = one_time_key key nonce in
    let len : ℕ = length src - 16 in
    let mac : Bytes = authenticate start.0 ad (take len src) in
    let out : Option Bytes = some (chacha20 start.1 (take len src)).0 in
    let pick : Bool → Bool → Option Bytes = λ a b. if a then none else if b then out else none in
    let same : Bool = list_eq mac (drop len src) in
    elim (Bool-cases (ltb (length src) 16)) [
      | inl l ↦ Outcome.too_short (ltb→lt (length src) 16 l) (ap (λ b. pick b same) l)
      | inr l ↦
          let long : 16 ≤ length src = ltb-false (length src) 16 l in
          elim (Bool-cases same) [
            | inl e ↦
                Outcome.sealed long (sym ((list_eq_iff mac (drop len src)).0 e))
                  (ap (λ b. pick b same) l ∙ ap (pick false) e)
            | inr e ↦
                Outcome.forged long
                  (λ h. true≢false (sym ((list_eq_iff mac (drop len src)).1 (sym h)) ∙ e))
                  (ap (λ b. pick b same) l ∙ ap (pick false) e)
          ]
    ]

-- For a buffer shorter than 2^32 bytes, which chacha20's uint32_t length can hold,
-- `chacha20poly1305_decrypt` returns true with `plain` in dst exactly when the buffer is what
-- `chacha20poly1305_encrypt` makes of `plain` with the same associated data, nonce and key.
pub decrypt_iff :
    (src ad : Bytes) (nonce : ℕ) (key plain : Bytes)
    → length src < 2 ^ 32
    → (chacha20poly1305_decrypt src ad nonce key ≡ some plain)
      ↔ (src ≡ chacha20poly1305_encrypt plain ad nonce key)
unfolding chacha20poly1305_encrypt
decrypt_iff src ad nonce key plain fits = (there (outcome src ad nonce key), back)
  where
    back :
        src ≡ chacha20poly1305_encrypt plain ad nonce key
        → chacha20poly1305_decrypt src ad nonce key ≡ some plain
    back e =
        ap (λ (t : Bytes). chacha20poly1305_decrypt t ad nonce key) e
        ∙ decrypt-encrypt plain ad nonce key

    there :
        Outcome src ad nonce key
        → chacha20poly1305_decrypt src ad nonce key ≡ some plain
        → src ≡ chacha20poly1305_encrypt plain ad nonce key
    there (Outcome.too_short l e) h = absurd cc
    there (Outcome.forged l ne e) h = absurd cc
    there (Outcome.sealed l t e) h =
        let start = one_time_key key nonce in
        let text : Bytes = take (length src - 16) src in
        let tag : Bytes = drop (length src - 16) src in
        let dst : Bytes = (chacha20 start.1 plain).0 in
        let plain_text : (chacha20 start.1 text).0 ≡ plain =
          some-injective (chacha20 start.1 text).0 plain (sym e ∙ h) in
        let same : text ≡ dst =
          sym (chacha20-chacha20 start.1 text)
          ∙ ap (λ (u : Bytes). (chacha20 start.1 u).0) plain_text in
        sym (take-append_drop (length src - 16) src)
        ∙ ap (λ (u : Bytes). text ++ u) t
        ∙ ap (λ (u : Bytes). u ++ authenticate start.0 ad u) same

-- `xchacha20poly1305_decrypt` undoes `xchacha20poly1305_encrypt` under the same associated data, nonce
-- of 24 bytes and key.
pub xdecrypt-xencrypt :
    (src ad nonce key : Bytes)
    → xchacha20poly1305_decrypt (xchacha20poly1305_encrypt src ad nonce key) ad nonce key ≡ some src
unfolding xchacha20poly1305_decrypt xchacha20poly1305_encrypt
xdecrypt-xencrypt src ad nonce key =
    decrypt-encrypt src ad (get_unaligned_le64 nonce 16) (le32_bytes (hchacha20 nonce key))
