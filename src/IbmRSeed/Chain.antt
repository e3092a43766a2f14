-- ===== src/IbmRSeed/Chain.antt =====
-- The substitute password by DES alone: five blocks, each masked with the result for the block before
-- it and encrypted, of which the last is the password.
use protocol_tn.Base.{
  ℕ, zero, suc, ◌+◌, ◌-◌, ◌*◌, ◌%◌, ◌^◌, Bool, true, not, ◌&&◌, List, [], ◌∷◌, ◌++◌, Bytes, All,
  is_empty, length, take, drop, replicate, ltb, ◌==◌, if◌then◌else◌, ◌≡◌, refl, sym, ap, ◌∙◌, arith,
  length-append, length-take, length-drop, append-nil,
}
use protocol_tn.Decoder.Stream.Records.{concat}
use protocol_tn.CodePage.{PageId}
use protocol_tn.IbmRSeed.{
  Des, pad_password_ebcdic, pad_user_id_ebcdic, xor_with_55, left_shift1, add_big_endian8,
  des_ecb_encrypt, des_cbc_encrypt, xor_bytes, pwseqs, seed_block, encrypt_password,
}
use protocol_tn.IbmRSeed.Laws.{big_endian, add_big_endian8_value}
use protocol_tn.IbmRSeed.Size.{
  KeepsSize, length-xor_with_55, length-left_shift1, length-add_big_endian8, length-xor_bytes,
  length-seed_block, length-des_ecb_encrypt, length-pad_password_ebcdic, length-pad_user_id_ebcdic,
}

abbrev pub IsBlock : Bytes → Type 0
IsBlock b = length b ≡ 8

-- What is documented of the CBC mode of a cipher: a block is encrypted as its xor with the initial vector,
-- and is the initial vector of the blocks behind it.
pub record IsCbc (des : Des) : Type 0 where
  pub at_end : (key iv : Bytes) → length key ≡ 8 → IsBlock iv → des.cbc key iv [] ≡ []
  pub at_block :
      (key iv block more : Bytes)
      → length key ≡ 8
      → IsBlock iv
      → IsBlock block
      → length more % 8 ≡ 0
      → des.cbc key iv (block ++ more)
        ≡ des.ecb key (xor_bytes block iv) ++ des.cbc key (des.ecb key (xor_bytes block iv)) more

-- The blocks one behind the other: the results, and the last of them.
abbrev ciphers : (Bytes → Bytes) → Bytes → List Bytes → List Bytes
ciphers e before [] = []
ciphers e before (b ∷ bs) = e (xor_bytes b before) ∷ ciphers e (e (xor_bytes b before)) bs

abbrev pub chain : (Bytes → Bytes) → Bytes → List Bytes → Bytes
chain e before [] = before
chain e before (b ∷ bs) = chain e (e (xor_bytes b before)) bs

length-blocks : (bs : List Bytes) → All IsBlock bs → length (concat bs) ≡ 8 * length bs
length-blocks [] h = omega arith
length-blocks (b ∷ bs) (h, hs) = omega (arith, length-append b (concat bs), length-blocks bs hs)

drop_behind : (m n : ℕ) (xs ys : Bytes) → m ≡ length xs + n → drop m (xs ++ ys) ≡ drop n ys
drop_behind m n [] ys h = ap (λ k. drop k ys) (omega (arith, h))
drop_behind zero n (x ∷ xs) ys h = absurd (omega (arith, h))
drop_behind (suc m) n (x ∷ xs) ys h = drop_behind m n xs ys (omega (arith, h))

module _ (des : Des) (key : Bytes) (size : KeepsSize des) (cbc : IsCbc des)
    (k : length key ≡ 8) where
  encrypted-IsBlock :
      (b before : Bytes) → IsBlock b → IsBlock before → IsBlock (des.ecb key (xor_bytes b before))
  encrypted-IsBlock b before h v =
      let l = length-xor_bytes b before (h ∙ sym v) ∙ h in
      size.ecb_size key (xor_bytes b before) k l ∙ l

  cbc-concat :
      (iv : Bytes) (bs : List Bytes)
      → IsBlock iv
      → All IsBlock bs
      → des.cbc key iv (concat bs) ≡ concat (ciphers (des.ecb key) iv bs)
  cbc-concat iv [] v h = cbc.at_end key iv k v
  cbc-concat iv (b ∷ bs) v (h, hs) =
      cbc.at_block key iv b (concat bs) k v h (omega (arith, length-blocks bs hs))
      ∙ ap (◌++◌ (des.ecb key (xor_bytes b iv)))
          (cbc-concat (des.ecb key (xor_bytes b iv)) bs (encrypted-IsBlock b iv h v) hs)

  last_cipher :
      (n : ℕ) (before b : Bytes) (bs : List Bytes)
      → IsBlock before
      → All IsBlock (b ∷ bs)
      → n ≡ 8 * length bs
      → drop n (concat (ciphers (des.ecb key) before (b ∷ bs)))
        ≡ chain (des.ecb key) before (b ∷ bs)
  last_cipher n before b [] v h e =
      let zero_left : n ≡ 0 = omega (arith, e) in
      ap (λ m. drop m (des.ecb key (xor_bytes b before) ++ [])) zero_left
      ∙ append-nil (des.ecb key (xor_bytes b before))
  last_cipher n before b (c ∷ bs) v (h, hs) e =
      let here = encrypted-IsBlock b before h v in
      drop_behind n (8 * length bs) (des.ecb key (xor_bytes b before)) _ (omega (arith, e, here))
      ∙ last_cipher (8 * length bs) (des.ecb key (xor_bytes b before)) c bs here hs refl

  -- The last of the blocks that the CBC mode makes of five.
  last_of_five :
      (iv a b c d e : Bytes)
      → IsBlock iv
      → All IsBlock (a ∷ b ∷ c ∷ d ∷ e ∷ [])
      → drop 32 (des.cbc key iv (a ++ (b ++ (c ++ (d ++ (e ++ []))))))
        ≡ chain (des.ecb key) iv (a ∷ b ∷ c ∷ d ∷ e ∷ [])
  last_of_five iv a b c d e v h =
      ap (drop 32) (cbc-concat iv (a ∷ b ∷ c ∷ d ∷ e ∷ []) v h)
      ∙ last_cipher 32 iv a (b ∷ c ∷ d ∷ e ∷ []) v h (omega arith)

des_ecb_encrypt_checked :
    (des : Des) (key text : Bytes)
    → length key ≡ 8
    → IsBlock text
    → des_ecb_encrypt des key text ≡ des.ecb key text
unfolding des_ecb_encrypt
des_ecb_encrypt_checked des key text h k = rw (h, k) refl

des_cbc_encrypt_checked :
    (des : Des) (key iv text : Bytes)
    → length key ≡ 8
    → IsBlock iv
    → length text ≡ 40
    → des_cbc_encrypt des key iv text ≡ des.cbc key iv text
unfolding des_cbc_encrypt
des_cbc_encrypt_checked des key iv text h k l = rw (h, k, l) refl

-- The end of encryptPassword, where neither encryption has failed.
ending :
    (token ciphertext : Bytes)
    → IsBlock token
    → length ciphertext ≡ 40
    → (if is_empty token
        then []
        else if ltb (length ciphertext) 40
        then []
        else drop (length ciphertext - 8) ciphertext)
      ≡ drop 32 ciphertext
ending [] c h k = absurd (omega (arith, h))
ending (t ∷ token) c h k = rw k refl

-- The token: the name encrypted with the password, padded, masked and shifted.
abbrev pub password_token : Des → Bytes → Bytes → PageId → Bytes
password_token des user_id password cp =
    des.ecb (left_shift1 (xor_with_55 (pad_password_ebcdic password cp)))
      (pad_user_id_ebcdic user_id 8 cp)

-- The substitute, from the blocks: the seed of the host with the sequence number added, the seed of the client, both halves of
-- the name masked with the former, and the sequence number.
abbrev pub password_substitute : Des → Bytes → Bytes → Bytes → Bytes → PageId → Bytes
password_substitute des user_id password server_seed client_seed cp =
    let rdrseq = add_big_endian8 server_seed pwseqs in
    let name = pad_user_id_ebcdic user_id 16 cp in
    chain (des.ecb (password_token des user_id password cp)) (replicate 8 0) (
      rdrseq
      ∷ client_seed
      ∷ xor_bytes (take 8 name) rdrseq
      ∷ xor_bytes (drop 8 name) rdrseq
      ∷ pwseqs
      ∷ [])

guarded : (b : Bool) (x : Bytes) → b ≡ true → (if not b then [] else x) ≡ x
guarded b x e = rw e refl

-- With eight bytes of seed on both sides, and where DES keeps sizes and has the CBC mode as
-- documented, encryptPassword returns the last of the chain of encryptions, under the token, of the
-- five blocks; and the first of these, as a big-endian number, is the seed of the host plus one, modulo 2^64.
pub encrypt_password-password_substitute :
    (des : Des) (user_id password server_seed client_seed : Bytes) (cp : PageId)
    → KeepsSize des
    → IsCbc des
    → IsBlock server_seed
    → IsBlock client_seed
    → (encrypt_password des user_id password server_seed client_seed cp
        ≡ password_substitute des user_id password server_seed client_seed cp)
      × (big_endian (add_big_endian8 server_seed pwseqs) ≡ (big_endian server_seed + 1) % 2 ^ 64)
unfolding encrypt_password seed_block big_endian
encrypt_password-password_substitute des user_id password server_seed client_seed cp size cbc h k =
    (
      guarded ((length server_seed == 8) && (length client_seed == 8)) _ (rw (h, k) refl)
          ∙ ending token _ token_size (
              ap length (des_cbc_encrypt_checked des token zeros block token_size refl sized)
              ∙ size.cbc_size token zeros block token_size refl (omega (arith, sized))
              ∙ sized)
          ∙ ap (drop 32) (des_cbc_encrypt_checked des token zeros block token_size refl sized)
          ∙ last_of_five des token size cbc token_size zeros rdrseq client_seed x1 x2 pwseqs refl
              (r, (k, (l1, (l2, (refl, tt)))))
          ∙ ap (λ t. chain (des.ecb t) zeros (rdrseq ∷ client_seed ∷ x1 ∷ x2 ∷ pwseqs ∷ []))
              (des_ecb_encrypt_checked des shifted name8 shifted_size
                (length-pad_user_id_ebcdic user_id 8 cp)),
      add_big_endian8_value server_seed pwseqs h refl,
    )
  where
    zeros : Bytes
    zeros = replicate 8 0

    shifted : Bytes
    shifted = left_shift1 (xor_with_55 (pad_password_ebcdic password cp))

    name8 : Bytes
    name8 = pad_user_id_ebcdic user_id 8 cp

    name16 : Bytes
    name16 = pad_user_id_ebcdic user_id 16 cp

    rdrseq : Bytes
    rdrseq = add_big_endian8 server_seed pwseqs

    x1 : Bytes
    x1 = xor_bytes (take 8 name16) rdrseq

    x2 : Bytes
    x2 = xor_bytes (drop 8 name16) rdrseq

    token : Bytes
    token = des_ecb_encrypt des shifted name8

    block : Bytes
    block = seed_block rdrseq client_seed name16

    shifted_size : length shifted ≡ 8
    shifted_size =
        length-left_shift1 _ ∙ length-xor_with_55 _ ∙ length-pad_password_ebcdic password cp

    token_size : length token ≡ 8
    token_size =
        length-des_ecb_encrypt des shifted name8 size shifted_size
          (length-pad_user_id_ebcdic user_id 8 cp)

    r : length rdrseq ≡ 8
    r = length-add_big_endian8 server_seed pwseqs h refl

    name_size : length name16 ≡ 16
    name_size = length-pad_user_id_ebcdic user_id 16 cp

    l1 : length x1 ≡ 8
    l1 =
        let t : length (take 8 name16) ≡ 8 = omega (arith, length-take 8 name16, name_size) in
        length-xor_bytes (take 8 name16) rdrseq (t ∙ sym r) ∙ t

    l2 : length x2 ≡ 8
    l2 =
        let t : length (drop 8 name16) ≡ 8 = omega (arith, length-drop 8 name16, name_size) in
        length-xor_bytes (drop 8 name16) rdrseq (t ∙ sym r) ∙ t

    sized : length block ≡ 40
    sized = length-seed_block rdrseq client_seed name16 r k name_size
