-- ===== src/IbmRSeed.antt =====
-- tn5250/client/ibmrseed.h and ibmrseed.cpp: the substitute password of the IBMRSEED sign-on. DES is
-- OpenSSL's, and a parameter.
pub mod Laws
pub mod Size
pub mod Evp
pub mod Chain
use protocol_tn.Base.{
  bit_xor, ℕ, zero, suc, ◌+◌, ◌-◌, ◌*◌, ◌/◌, ◌%◌, ◌≤◌, ◌<◌, min, Bool, true, false, not, ◌&&◌, ◌||◌,
  Option, none, some, List, [], ◌∷◌, ◌++◌, map, Bytes, IsByte, IsBytes, All, be16, is_empty, length,
  take, drop, get_or, set, replicate, ltb, leb, ◌==◌, if◌then◌else◌, ◌≡◌, refl, sym, ap, ap₂, ◌∙◌,
  ◌≢◌, inl, inr, ◌⊎◌, arith, Bool-cases, ==_iff, length-append, length-take, length-drop,
  take_append, drop_append, get_or_append, append-nil, append_assoc, take-length, drop-length,
  take_prefix, drop_prefix, subst, take-append-drop, tests, ltb→lt, ltb→ge, lt→ltb, ge→ltb,
}
use protocol_tn.CodePage.{PageId, cp037, from_unicode_string}

-- The EVP calls for DES in ECB and CBC mode without padding, on arguments whose sizes the code has
-- checked: key and plaintext, or key, initial vector and plaintext. An empty result is a failure.
pub record Des : Type 0 where
  pub ecb : Bytes → Bytes → Bytes
  pub cbc : Bytes → Bytes → Bytes → Bytes

-- std::toupper of an unsigned char.
abbrev pub to_upper : ℕ → ℕ
to_upper c = if leb b'a' c && leb c b'z' then c - 32 else c

-- resize down to `len`, or push 0x40 up to it.
unfoldable pub pad_to : ℕ → Bytes → Bytes
pad_to len bs = take len bs ++ replicate (len - length bs) 0x40

unfoldable pub pad_password_ebcdic : Bytes → PageId → Bytes
pad_password_ebcdic password cp = pad_to 8 (from_unicode_string cp (map to_upper password))

unfoldable pub pad_user_id_ebcdic : Bytes → ℕ → PageId → Bytes
pad_user_id_ebcdic user_id len cp = pad_to len (from_unicode_string cp (map to_upper user_id))

unfoldable pub xor_with_55 : Bytes → Bytes
xor_with_55 = map (λ b. bit_xor b 0x55)

-- Each byte shifted left by one, with the top bit of the byte behind it.
unfoldable pub shift_bytes : Bytes → Bytes
shift_bytes [] = []
shift_bytes (b ∷ bs) = (b * 2 % 256 + get_or bs 0 0 / 128) ∷ shift_bytes bs

unfoldable pub left_shift1 : Bytes → Bytes
left_shift1 bs = if length bs == 8 then shift_bytes bs else bs

-- The sum of two lists of bytes from the last byte on, with the carry out.
unfoldable pub add_bytes : Bytes → Bytes → ℕ × Bytes
add_bytes [] bs = (0, [])
add_bytes (a ∷ as') [] = (0, [])
add_bytes (a ∷ as') (b ∷ bs) =
    let later = add_bytes as' bs in let sum = a + b + later.0 in (sum / 256, (sum % 256) ∷ later.1)

unfoldable pub add_big_endian8 : Bytes → Bytes → Bytes
add_big_endian8 a b = if (length a == 8) && (length b == 8) then (add_bytes a b).1 else a

unfoldable pub des_ecb_encrypt : Des → Bytes → Bytes → Bytes
des_ecb_encrypt des key plaintext =
    if (length key == 8) && (length plaintext == 8) then des.ecb key plaintext else []

unfoldable pub des_cbc_encrypt : Des → Bytes → Bytes → Bytes → Bytes
des_cbc_encrypt des key iv plaintext =
    if (length key == 8) && (length iv == 8) && (length plaintext % 8 == 0)
    then des.cbc key iv plaintext
    else []

-- The bytewise xor of two blocks.
unfoldable pub xor_bytes : Bytes → Bytes → Bytes
xor_bytes [] bs = []
xor_bytes (a ∷ as') [] = []
xor_bytes (a ∷ as') (b ∷ bs) = bit_xor a b ∷ xor_bytes as' bs

abbrev pub pwseqs : Bytes
pwseqs = replicate 7 0 ++ (1 ∷ [])

-- The 40 bytes that are encrypted.
unfoldable pub seed_block : Bytes → Bytes → Bytes → Bytes
seed_block rdrseq client_seed user_id16 =
    rdrseq
    ++ (client_seed
        ++ (xor_bytes (take 8 user_id16) rdrseq ++ (xor_bytes (drop 8 user_id16) rdrseq ++ pwseqs)))

unfoldable pub encrypt_password : Des → Bytes → Bytes → Bytes → Bytes → PageId → Bytes
encrypt_password des user_id password server_seed client_seed cp =
    let shifted = left_shift1 (xor_with_55 (pad_password_ebcdic password cp)) in
    let pw_token = des_ecb_encrypt des shifted (pad_user_id_ebcdic user_id 8 cp) in
    let rdrseq = add_big_endian8 server_seed pwseqs in
    let block = seed_block rdrseq client_seed (pad_user_id_ebcdic user_id 16 cp) in
    let ciphertext = des_cbc_encrypt des pw_token (replicate 8 0) block in
    if not ((length server_seed == 8) && (length client_seed == 8))
    then []
    else if is_empty pw_token
    then []
    else if ltb (length ciphertext) 40
    then []
    else drop (length ciphertext - 8) ciphertext

-- NEW-ENVIRON escapes VAR, VALUE, ESC, USERVAR and IAC by ESC (0x02).
unfoldable pub escape_new_environ : Bytes → Bytes
escape_new_environ [] = []
escape_new_environ (b ∷ bs) =
    let rest = b ∷ escape_new_environ bs in if leb b 0x03 || (b == 0xFF) then 0x02 ∷ rest else rest

-- The overloads without a code page.
abbrev pub pad_password_ebcdic_default : Bytes → Bytes
pad_password_ebcdic_default password = pad_password_ebcdic password cp037

abbrev pub pad_user_id_ebcdic_default : Bytes → ℕ → Bytes
pad_user_id_ebcdic_default user_id len = pad_user_id_ebcdic user_id len cp037

abbrev pub encrypt_password_default : Des → Bytes → Bytes → Bytes → Bytes → Bytes
encrypt_password_default des user_id password server_seed client_seed =
    encrypt_password des user_id password server_seed client_seed cp037

-- The loop over the bytes of the seed from `i` on, `left` of them. `dist` is what dist(gen) gives, by
-- the count of the calls.
abbrev pub draw_bytes : (ℕ → ℕ) → ℕ → ℕ → Bytes
draw_bytes dist i zero = []
draw_bytes dist i (suc left) = (dist i % 256) ∷ draw_bytes dist (i + 1) left

unfoldable pub generate_client_seed : (ℕ → ℕ) → Bytes
generate_client_seed dist = draw_bytes dist 0 8
