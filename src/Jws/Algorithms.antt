-- ===== src/Jws/Algorithms.antt =====
-- Which algorithm signs what.
use acmed.Base.{String, ◌≡◌, ◌⊎◌, inl, inr, refl, arith}
use acmed.Base.Result.{ok}
use acmed.Crypto.Algorithm.{JwsSignatureAlgorithm, hs256, hs384, hs512}
use acmed.World.{Bytes}
use acmed.World.Env.{Env}
use acmed.Jws.{encode_kid_mac}

module _ (env : Env) where
  -- An external account binding is made only with one of the three HMAC algorithms.
  pub encode_kid_mac-alg :
      (key : Bytes) (alg : JwsSignatureAlgorithm) (key_id : String) (d : Bytes) (url s : String)
      → encode_kid_mac env key alg key_id d url ≡ ok s
      → (alg ≡ hs256) ⊎ ((alg ≡ hs384) ⊎ (alg ≡ hs512))
  unfolding encode_kid_mac
  encode_kid_mac-alg key hs256 key_id d url s h = inl refl
  encode_kid_mac-alg key hs384 key_id d url s h = inr (inl refl)
  encode_kid_mac-alg key hs512 key_id d url s h = inr (inr refl)
  encode_kid_mac-alg key alg key_id d url s h = absurd (ground arith)
