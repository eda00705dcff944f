-- ===== src/Crypto/Keys/Length.antt =====
-- How long the signatures of acme_common/src/crypto/openssl_keys.rs are.
use acmed.Base.{ℕ, ◌-◌, ◌*◌, ◌≡◌, ◌++◌, arith, length, length-append, replicate, length-replicate}
use acmed.Base.Result.{Result, ok, err, panic}
use acmed.Base.Result
use acmed.Base.Gives.{Gives, Gives-ok, Gives-bind}
use acmed.Error.{from_openssl}
use acmed.Crypto.KeyType.{KeyType}
use acmed.Crypto.Hash.{HashFunction}
use acmed.World.{Bytes}
use acmed.World.Env.{Env, KeyPair}
use acmed.Crypto.Keys.{get_ecdsa_sig_part, sig_size, sign_ecdsa}

-- The numbers of a signature are as long as the order of the curve.
abbrev pub number_length : KeyType → ℕ
number_length KeyType.ecdsa_p256 = 32
number_length KeyType.ecdsa_p384 = 48
number_length KeyType.ecdsa_p521 = 66
number_length _ = 0

module _ (env : Env) where
  part-length : (part size : ℕ) → Gives (λ p. length p ≡ size) (get_ecdsa_sig_part env part size)
  unfolding get_ecdsa_sig_part
  part-length part size = record {
    at = λ p h. ground (
      arith,
      length-append (replicate (size - length (env.crypto.to_vec part)) 0) (env.crypto.to_vec part),
      length-replicate {A = ℕ} (size - length (env.crypto.to_vec part)) 0,
    );
  }

  sig_size-number : (t : KeyType) (n : ℕ) → sig_size env t ≡ ok n → n ≡ number_length t
  unfolding sig_size
  sig_size-number t n h = ground arith

  sign_ecdsa-Gives :
      (k : KeyPair) (hash_func : HashFunction) (d : Bytes)
      → Gives (λ s. length s ≡ 2 * number_length k.key_type) (sign_ecdsa env k hash_func d)
  unfolding sign_ecdsa
  sign_ecdsa-Gives k hash_func d =
      Gives-bind
        (Result.map_err from_openssl
          (env.crypto.ecdsa_sign k.inner_key (env.crypto.hash hash_func d)))
        _
        λ signature _. Gives-bind (sig_size env k.key_type) _ λ size sized.
          Gives-bind (get_ecdsa_sig_part env signature.0 size) _ λ r r_made.
            Gives-bind (get_ecdsa_sig_part env signature.1 size) _ λ s s_made. Gives-ok (r ++ s) (
              omega (
                arith,
                length-append r s,
                (part-length signature.0 size).at r r_made,
                (part-length signature.1 size).at s s_made,
                sig_size-number k.key_type size sized,
              ))

  -- A signature with an ECDSA key has twice the bytes of the order of its curve, 64, 96 or 132,
  -- however small the two numbers are that OpenSSL returns.
  pub sign_ecdsa-length :
      (k : KeyPair) (hash_func : HashFunction) (d s : Bytes)
      → sign_ecdsa env k hash_func d ≡ ok s
      → length s ≡ 2 * number_length k.key_type
  sign_ecdsa-length k hash_func d s = (sign_ecdsa-Gives k hash_func d).at s
