-- ===== src/Runs/Extension/Simple.antt =====
-- A platform that keeps what the wallet relies on: texts are their own bytes, a key is the password, and
-- a ciphertext is the content behind the length of its key.
use resistance_network.Common.{
  ℕ, zero, suc, ◌≡◌, refl, ap, ap₂, ◌∙◌, List, [], ◌∷◌, ◌++◌, map, Text, length, take, drop,
  take-append, drop-append, ◌==◌, ==_refl, if◌then◌else◌, Option, none, some,
}
use resistance_network.Adapter.Signing.{lower_case}
use resistance_network.Runs.Signing.{toy_crypto}
use resistance_network.WalletExt.Platform.{Keypair, Platform, IsSound, LowersAscii}

abbrev simple_decrypt : List ℕ → List ℕ → List ℕ → Option (List ℕ)
simple_decrypt key iv [] = none
simple_decrypt key iv (n ∷ content) = if n == length key then some content else none

-- A text, behind its length; an option, behind 0 or 1; a list, behind the number of its elements.
write_text : Text → List ℕ
write_text t = length t ∷ t

write_option : Option Text → List ℕ
write_option none = 0 ∷ []
write_option (some t) = 1 ∷ write_text t

write_keypair : Keypair → List ℕ → List ℕ
write_keypair kp rest =
    write_text kp.public_key
    ++ (write_text kp.secret_key
        ++ (write_text kp.address
            ++ (write_option kp.seed_phrase ++ (write_option kp.name ++ rest))))

write_keypairs : List Keypair → List ℕ
write_keypairs [] = []
write_keypairs (kp ∷ kps) = write_keypair kp (write_keypairs kps)

pub simple_stringify : List Keypair → Text
simple_stringify kps = length kps ∷ write_keypairs kps

-- A text or an option is read, and what follows goes on.
read_text : {A : Type 0} → (Text → List ℕ → A) → List ℕ → A
read_text f [] = f [] []
read_text f (n ∷ s) = f (take n s) (drop n s)

read_option : {A : Type 0} → (Option Text → List ℕ → A) → List ℕ → A
read_option f [] = f none []
read_option f (zero ∷ s) = f none s
read_option f (suc k ∷ s) = read_text (λ t. f (some t)) s

read_keypair : {A : Type 0} → (Keypair → List ℕ → A) → List ℕ → A
read_keypair f s =
    read_text
      (λ public_key. read_text λ secret_key. read_text λ address. read_option λ seed_phrase.
        read_option λ name. f (record {
          public_key = public_key;
          secret_key = secret_key;
          address = address;
          seed_phrase = seed_phrase;
          name = name;
        }))
      s

read_keypairs : ℕ → List ℕ → List Keypair
read_keypairs zero s = []
read_keypairs (suc n) s = read_keypair (λ kp rest. kp ∷ read_keypairs n rest) s

pub simple_parse : Text → Option (List Keypair)
simple_parse [] = none
simple_parse (n ∷ s) = some (read_keypairs n s)

read_text-write_text :
    {A : Type 0} (f : Text → List ℕ → A) (t s : List ℕ) → read_text f (write_text t ++ s) ≡ f t s
unfolding read_text write_text
read_text-write_text f t s = ap₂ f (take-append t s) (drop-append t s)

read_option-write_option :
    {A : Type 0} (f : Option Text → List ℕ → A) (o : Option Text) (s : List ℕ)
    → read_option f (write_option o ++ s) ≡ f o s
unfolding read_option write_option
read_option-write_option f none s = refl
read_option-write_option f (some t) s = read_text-write_text (λ u. f (some u)) t s

read_keypair-write_keypair :
    {A : Type 0} (f : Keypair → List ℕ → A) (kp : Keypair) (s : List ℕ)
    → read_keypair f (write_keypair kp s) ≡ f kp s
unfolding read_keypair write_keypair
read_keypair-write_keypair f kp s =
    read_text-write_text _ kp.public_key _
    ∙ read_text-write_text _ kp.secret_key _
    ∙ read_text-write_text _ kp.address _
    ∙ read_option-write_option _ kp.seed_phrase _
    ∙ read_option-write_option _ kp.name s

read_keypairs-write_keypairs :
    (kps : List Keypair) → read_keypairs (length kps) (write_keypairs kps) ≡ kps
unfolding read_keypairs write_keypairs
read_keypairs-write_keypairs [] = refl
read_keypairs-write_keypairs (kp ∷ kps) =
    read_keypair-write_keypair _ kp (write_keypairs kps)
    ∙ ap (λ ks. kp ∷ ks) (read_keypairs-write_keypairs kps)

abbrev pub simple_platform : Platform
simple_platform = record {
  crypto = toy_crypto;
  to_lower_case = λ s. map lower_case s;
  derive_bits = λ password salt. password;
  derive_key = λ password salt. password;
  encrypt = λ key iv content. length key ∷ content;
  decrypt = simple_decrypt;
  utf8 = λ s. s;
  utf8_text = λ s. s;
  stringify = simple_stringify;
  parse = simple_parse;
}

simple_parse-simple_stringify :
    (kps : List Keypair) → simple_parse (simple_stringify kps) ≡ some kps
unfolding simple_parse simple_stringify
simple_parse-simple_stringify kps = ap some (read_keypairs-write_keypairs kps)

pub simple_platform-IsSound : IsSound simple_platform
simple_platform-IsSound = record {
  decrypt-encrypt = λ key iv content. rw (==_refl (length key)) refl;
  parse-stringify = simple_parse-simple_stringify;
}

pub simple_platform-LowersAscii : LowersAscii simple_platform
simple_platform-LowersAscii s h = refl
