-- ===== src/Tests/SignOn.antt =====
-- Runs of the sign-on and of the code pages, and the theorems at them.
use protocol_tn.Base.{
  ℕ, zero, suc, ◌+◌, ◌*◌, ◌/◌, ◌%◌, ◌^◌, true, List, [], ◌∷◌, ◌++◌, map, Bytes, All, length, get_or,
  replicate, ◌==◌, if◌then◌else◌, ◌≡◌, refl, sym, ap, ◌∙◌, inl, inr, arith, length-append,
}
use protocol_tn.Telnet.Client
use protocol_tn.Telnet.Client.Hearing.{heard, hear_all}
use protocol_tn.Telnet.Command.{new_environ}
use protocol_tn.Utils.Text.Lines.{codes}
use protocol_tn.Handler.State.{Handler, World, new}
use protocol_tn.Handler.Handshake.{substitute_password, new_environ_reply}
use protocol_tn.Handler.Environ.Reader.{read_variables, named, plain}
use protocol_tn.Handler.Environ.{
  next_seed, sends_password, no_iac, reply_values, subnegotiated, feed-new_environ_reply,
}
use protocol_tn.Handler.Environ.Cut.{feed-new_environ_reply_cut}
use protocol_tn.Tests.Handler.{config}
use protocol_tn.IbmRSeed.{
  pad_password_ebcdic, pad_user_id_ebcdic, pad_to, xor_with_55, left_shift1, shift_bytes, add_bytes,
  des_ecb_encrypt, des_cbc_encrypt, xor_bytes, seed_block,
}
use protocol_tn.CodePage.Tables.{assign, init_common_letters_and_digits, init_cp037}
use protocol_tn.CodePage.Tables.National.{init_cp273}
use protocol_tn.CodePage.{
  from_unicode_loop, decode_utf8, cp037, cp273, blank_table, to_unicode_table, to_unicode,
  from_unicode, from_unicode_string,
}
use protocol_tn.CodePage.Utf8.{
  utf8, from_unicode_string-utf8, Returns, to_unicode-from_unicode_string,
}
use protocol_tn.IbmRSeed.{Des, add_big_endian8, pwseqs, encrypt_password, generate_client_seed}
use protocol_tn.IbmRSeed.Laws.{big_endian}
use protocol_tn.IbmRSeed.Size.{KeepsSize}
use protocol_tn.IbmRSeed.Chain.{IsCbc, password_substitute, encrypt_password-password_substitute}

-- A letter, a letter of two bytes, and a character of four bytes, which no page has.
abbrev mixed : List ℕ
mixed = 0x41 ∷ 0xE4 ∷ 0x1F600 ∷ []

mixed_bytes : utf8 mixed ≡ 0x41 ∷ 0xC3 ∷ 0xA4 ∷ 0xF0 ∷ 0x9F ∷ 0x98 ∷ 0x80 ∷ []
mixed_bytes = refl

from_unicode_string-utf8_example :
    from_unicode_string cp273 (utf8 mixed) ≡ map (from_unicode cp273) mixed
from_unicode_string-utf8_example =
    from_unicode_string-utf8 cp273 mixed (omega arith, (omega arith, (omega arith, tt)))

letters :
    (get_or (to_unicode_table cp273) 0xC1 0 ≡ 0x41)
    × (get_or (to_unicode_table cp273) 0x79 0 ≡ 0xE4)
unfolding to_unicode_table blank_table assign init_common_letters_and_digits init_cp037 init_cp273
letters = (refl, refl)

letters_return : All (Returns cp273) (0xC1 ∷ 0x79 ∷ 0 ∷ [])
letters_return =
    (inl (omega (arith, letters.0)), (inl (omega (arith, letters.1)), (inr (refl, refl), tt)))

to_unicode-from_unicode_string_example :
    (map
        (to_unicode cp273)
        (from_unicode_string cp273 (utf8 (map (to_unicode cp273) (0xC1 ∷ 0x79 ∷ 0 ∷ []))))
      ≡ map (to_unicode cp273) (0xC1 ∷ 0x79 ∷ 0 ∷ []))
    × (map (to_unicode cp273) (from_unicode_string cp273 (utf8 (map (to_unicode cp273) (0 ∷ []))))
        ≡ 0 ∷ [])
to_unicode-from_unicode_string_example =
    to_unicode-from_unicode_string cp273 (0xC1 ∷ 0x79 ∷ 0 ∷ []) letters_return

-- A cipher that gives its key for every block.
abbrev repeat : ℕ → Bytes → Bytes
repeat zero key = []
repeat (suc n) key = key ++ repeat n key

length-repeat : (n : ℕ) (key : Bytes) → length key ≡ 8 → length (repeat n key) ≡ 8 * n
length-repeat zero key h = omega arith
length-repeat (suc n) key h =
    omega (arith, h, length-append key (repeat n key), length-repeat n key h)

abbrev key_des : Des
key_des = record { ecb = λ key text. key; cbc = λ key iv text. repeat (length text / 8) key }

key_des-KeepsSize : KeepsSize key_des
key_des-KeepsSize = record {
  ecb_size = λ key text h k. h ∙ sym k;
  cbc_size = λ key iv text h k l. omega (arith, length-repeat (length text / 8) key h, l);
}

one_more :
    (block more : Bytes) → length block ≡ 8 → length (block ++ more) / 8 ≡ suc (length more / 8)
one_more block more h = omega (arith, length-append block more, h)

key_des-IsCbc : IsCbc key_des
key_des-IsCbc = record {
  at_end = λ key iv h k. refl;
  at_block = λ key iv block more h k l m. ap (λ n. repeat n key) (one_more block more l);
}

encrypt_password-password_substitute_example :
    (encrypt_password key_des (b'Q' ∷ []) (b'p' ∷ []) (replicate 8 0xFF) (replicate 8 2) cp037
      ≡ password_substitute key_des
          (b'Q' ∷ [])
          (b'p' ∷ [])
          (replicate 8 0xFF)
          (replicate 8 2)
          cp037)
    × (big_endian (add_big_endian8 (replicate 8 0xFF) pwseqs)
        ≡ (big_endian (replicate 8 0xFF) + 1) % 2 ^ 64)
encrypt_password-password_substitute_example =
    encrypt_password-password_substitute key_des (b'Q' ∷ []) (b'p' ∷ []) (replicate 8 0xFF)
      (replicate 8 2) cp037 key_des-KeepsSize key_des-IsCbc refl refl

seed_drawn : generate_client_seed (λ i. 250 + i) ≡ 250 ∷ 251 ∷ 252 ∷ 253 ∷ 254 ∷ 255 ∷ 0 ∷ 1 ∷ []
unfolding generate_client_seed
seed_drawn = refl

-- A handler with a seed of the host, a name and a password, and a device name.
abbrev signing : Handler
signing =
    record (new
      (record config { device_name = b'D' ∷ []; username = b'Q' ∷ []; password = b'p' ∷ [] })) {
        server_seed = replicate 8 1;
      }

-- DES that changes nothing, and seeds of the bytes of `random`.
abbrev drawing : (ℕ → ℕ) → World
drawing random = record {
  des = record { ecb = λ key text. text; cbc = λ key iv text. text };
  random_byte = λ n i. random i;
}

password_sent : (random : ℕ → ℕ) → substitute_password (drawing random) signing ≡ pwseqs
unfolding substitute_password encrypt_password generate_client_seed pad_password_ebcdic
    pad_user_id_ebcdic pad_to xor_with_55 left_shift1 shift_bytes add_big_endian8 add_bytes
    des_ecb_encrypt des_cbc_encrypt xor_bytes seed_block from_unicode_string from_unicode_loop
    decode_utf8 new
password_sent random = refl

abbrev calm : ℕ → ℕ
calm i = 0x10 + i

calm_seed : no_iac (next_seed (drawing calm) signing) ≡ true
unfolding generate_client_seed new
calm_seed = refl

calm_password : no_iac (substitute_password (drawing calm) signing) ≡ true
calm_password = rw (password_sent calm) refl

device_plain : plain signing.config.device_name ≡ true
unfolding new
device_plain = refl

feed-new_environ_reply_example :
    (body : Bytes) × (heard (Client.feed (new_environ_reply (drawing calm) signing) Client.new)
      ≡ subnegotiated new_environ (0x00 ∷ body) (heard Client.new))
    × (read_variables body ≡ named (reply_values (drawing calm) signing))
feed-new_environ_reply_example =
    feed-new_environ_reply (drawing calm) signing Client.new refl device_plain calm_seed
      calm_password

-- The fourth and the fifth byte of this seed are taken for the end of the subnegotiation.
abbrev ending : ℕ → ℕ
ending i = if i == 3 then 0xFF else if i == 4 then 0xF0 else 0x10 + i

ending_seed :
    next_seed (drawing ending) signing
    ≡ (0x10 ∷ 0x11 ∷ 0x12 ∷ []) ++ (0xFF ∷ 0xF0 ∷ 0x15 ∷ 0x16 ∷ 0x17 ∷ [])
unfolding generate_client_seed new
ending_seed = refl

ending_sends : sends_password (drawing ending) signing ≡ true
unfolding new
ending_sends = rw (password_sent ending) refl

feed-new_environ_reply_cut_example :
    (body : Bytes) × (rest : Bytes) × (heard
        (Client.feed (new_environ_reply (drawing ending) signing) Client.new)
      ≡ hear_all rest (subnegotiated new_environ (0x00 ∷ body) (heard Client.new)))
    × (read_variables body
        ≡ (codes "DEVNAME", signing.config.device_name)
          ∷ (codes "IBMRSEED", 0x10 ∷ 0x11 ∷ 0x12 ∷ [])
          ∷ [])
feed-new_environ_reply_cut_example =
    feed-new_environ_reply_cut (drawing ending) signing Client.new (0x10 ∷ 0x11 ∷ 0x12 ∷ [])
      (0x15 ∷ 0x16 ∷ 0x17 ∷ []) refl device_plain ending_sends refl ending_seed
