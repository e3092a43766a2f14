-- ===== src/IbmRSeed/Size.antt =====
-- The size of the substitute password.
use protocol_tn.Base.{
  ℕ, suc, ◌-◌, ◌%◌, true, ◌&&◌, [], ◌∷◌, ◌++◌, Bytes, is_empty, length, take, drop, replicate, ltb,
  ◌==◌, if◌then◌else◌, ◌≡◌, refl, sym, ap, ◌∙◌, inl, inr, arith, Bool-cases, length-append,
  length-take, length-drop, length-replicate,
}
use protocol_tn.CodePage.{PageId}
use protocol_tn.IbmRSeed.{
  Des, pad_to, pad_password_ebcdic, pad_user_id_ebcdic, xor_with_55, left_shift1, add_big_endian8,
  des_ecb_encrypt, des_cbc_encrypt, xor_bytes, pwseqs, seed_block, encrypt_password,
}
use protocol_tn.IbmRSeed.Laws.{length-add_bytes, length-shift_bytes}

-- What is documented of DES without padding, where it does not fail: the result is as long as the
-- text, which is a multiple of eight bytes.
pub record KeepsSize (des : Des) : Type 0 where
  pub ecb_size :
      (key text : Bytes)
      → length key ≡ 8
      → length text ≡ 8
      → length (des.ecb key text) ≡ length text
  pub cbc_size :
      (key iv text : Bytes)
      → length key ≡ 8
      → length iv ≡ 8
      → length text % 8 ≡ 0
      → length (des.cbc key iv text) ≡ length text

length-pad_to : (n : ℕ) (bs : Bytes) → length (pad_to n bs) ≡ n
unfolding pad_to
length-pad_to n bs = omega (
  arith,
  length-append (take n bs) (replicate (n - length bs) 0x40),
  length-take n bs,
  length-replicate {A = ℕ} (n - length bs) 0x40,
)

pub length-xor_with_55 : (bs : Bytes) → length (xor_with_55 bs) ≡ length bs
unfolding xor_with_55
length-xor_with_55 [] = refl
length-xor_with_55 (b ∷ bs) = ap (λ (k : ℕ). suc k) (length-xor_with_55 bs)

pub length-left_shift1 : (bs : Bytes) → length (left_shift1 bs) ≡ length bs
unfolding left_shift1
length-left_shift1 bs = ground (arith, length-shift_bytes bs)

pub length-add_big_endian8 :
    (a b : Bytes) → length a ≡ 8 → length b ≡ 8 → length (add_big_endian8 a b) ≡ 8
unfolding add_big_endian8
length-add_big_endian8 a b h k = rw (h, k) (length-add_bytes a b (h ∙ sym k) ∙ h)

pub length-xor_bytes : (a b : Bytes) → length a ≡ length b → length (xor_bytes a b) ≡ length a
unfolding xor_bytes
length-xor_bytes [] b h = refl
length-xor_bytes (x ∷ a) [] h = omega arith
length-xor_bytes (x ∷ a) (y ∷ b) h = omega (arith, length-xor_bytes a b (omega arith))

pub length-seed_block :
    (rdrseq client_seed user_id16 : Bytes)
    → length rdrseq ≡ 8
    → length client_seed ≡ 8
    → length user_id16 ≡ 16
    → length (seed_block rdrseq client_seed user_id16) ≡ 40
unfolding seed_block
length-seed_block r c u h k l =
    let x1 = xor_bytes (take 8 u) r in
    let x2 = xor_bytes (drop 8 u) r in
    let t = length-take 8 u in
    let d = length-drop 8 u in
    let e1 = length-xor_bytes (take 8 u) r (omega arith) in
    let e2 = length-xor_bytes (drop 8 u) r (omega arith) in
    omega (
      arith,
      length-append r (c ++ (x1 ++ (x2 ++ pwseqs))),
      length-append c (x1 ++ (x2 ++ pwseqs)),
      length-append x1 (x2 ++ pwseqs),
      length-append x2 pwseqs,
    )

pub length-des_ecb_encrypt :
    (des : Des) (key text : Bytes)
    → KeepsSize des
    → length key ≡ 8
    → length text ≡ 8
    → length (des_ecb_encrypt des key text) ≡ 8
unfolding des_ecb_encrypt
length-des_ecb_encrypt des key text v h k = rw (h, k) (v.ecb_size key text h k ∙ k)

length-des_cbc_encrypt :
    (des : Des) (key iv text : Bytes)
    → KeepsSize des
    → length key ≡ 8
    → length iv ≡ 8
    → length text ≡ 40
    → length (des_cbc_encrypt des key iv text) ≡ 40
unfolding des_cbc_encrypt
length-des_cbc_encrypt des key iv text v h k l =
    rw (h, k, l) (v.cbc_size key iv text h k (omega arith) ∙ l)

pub length-pad_password_ebcdic :
    (password : Bytes) (cp : PageId) → length (pad_password_ebcdic password cp) ≡ 8
unfolding pad_password_ebcdic
length-pad_password_ebcdic password cp = length-pad_to 8 _

pub length-pad_user_id_ebcdic :
    (user_id : Bytes) (n : ℕ) (cp : PageId) → length (pad_user_id_ebcdic user_id n cp) ≡ n
unfolding pad_user_id_ebcdic
length-pad_user_id_ebcdic user_id n cp = length-pad_to n _

-- The end of encryptPassword, from the results of the two encryptions.
last_block :
    (token ciphertext : Bytes)
    → length token ≡ 8
    → length ciphertext ≡ 40
    → length (
        if is_empty token
        then []
        else if ltb (length ciphertext) 40
        then []
        else drop (length ciphertext - 8) ciphertext)
      ≡ 8
last_block [] c h k = omega arith
last_block (t ∷ token) c h k = rw k (omega (arith, length-drop 32 c))

-- Where DES does not fail and keeps sizes, the substitute password has 8 bytes if both seeds have 8, and is empty
-- otherwise, whatever the name, the password and the code page are.
pub length-encrypt_password :
    (des : Des) (user_id password server_seed client_seed : Bytes) (cp : PageId)
    → KeepsSize des
    → length (encrypt_password des user_id password server_seed client_seed cp)
      ≡ (if (length server_seed == 8) && (length client_seed == 8) then 8 else 0)
unfolding encrypt_password
length-encrypt_password des user_id password server_seed client_seed cp v =
    elim (Bool-cases ((length server_seed == 8) && (length client_seed == 8))) [
      | inr e ↦ rw e
      | inl e ↦ rw e (
          last_block _ _ token (
            length-des_cbc_encrypt des _ (replicate 8 0) _ v token refl
              (block (seeds e).0 (seeds e).1)))
    ]
  where
    shifted : length (left_shift1 (xor_with_55 (pad_password_ebcdic password cp))) ≡ 8
    shifted = length-left_shift1 _ ∙ length-xor_with_55 _ ∙ length-pad_password_ebcdic password cp

    token :
        length (
          des_ecb_encrypt des
            (left_shift1 (xor_with_55 (pad_password_ebcdic password cp)))
            (pad_user_id_ebcdic user_id 8 cp))
        ≡ 8
    token = length-des_ecb_encrypt des _ _ v shifted (length-pad_user_id_ebcdic user_id 8 cp)

    seeds :
        ((length server_seed == 8) && (length client_seed == 8)) ≡ true
        → (length server_seed ≡ 8) × (length client_seed ≡ 8)
    seeds e = (ground arith, ground arith)

    block :
        length server_seed ≡ 8
        → length client_seed ≡ 8
        → length (
            seed_block
              (add_big_endian8 server_seed pwseqs)
              client_seed
              (pad_user_id_ebcdic user_id 16 cp))
          ≡ 40
    block h k =
        length-seed_block _ _ _ (length-add_big_endian8 server_seed pwseqs h refl) k
          (length-pad_user_id_ebcdic user_id 16 cp)
