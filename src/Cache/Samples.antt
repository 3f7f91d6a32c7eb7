-- ===== src/Cache/Samples.antt =====
-- A store of src/pqpatch/proposer/cache.py with one response, with the network on and off.
use nesy_pqpatch.Prelude.{◌≡◌, ◌≢◌, ◌⊎◌, refl, ℕ, Text, text, true, false, none, [], ◌∷◌}
use nesy_pqpatch.Python.{Result, ok, raised, value_error}
use nesy_pqpatch.Cache.{
  CachedResponse, CacheStore, Request, Clock, read, get_cached, put, response_of, get_or_fetch,
}
use nesy_pqpatch.Cache.Keys.{fed, cache_key-separates}

abbrev request : Request
request = record {
  backend_id = text "A";
  model_version = text "1";
  prompt_sha256 = text "p";
  seed = 0;
  request_spec_sha256 = none;
}

abbrev clock : Clock
clock = record { duration_ms = 5; now_utc = text "2026" }

abbrev online : CacheStore
online = record { dir = text "/c"; offline = false; files = [] }

abbrev fetch : Result (Text × ℕ)
fetch = ok (text "diff", 3)

abbrev down : Result (Text × ℕ)
down = raised (value_error (text "down"))

abbrev response : CachedResponse
response = response_of request clock (text "diff", 3)

abbrev filled : CacheStore
filled = record online { files = (text "K", response) ∷ [] }

fetched : get_or_fetch online (text "K") fetch request clock ≡ ok (response, filled, true)
unfolding get_or_fetch get_cached read put
fetched = refl

cache_key-separates_example :
    ((text "A" ≡ text "A")
      × (text "1" ≡ text "1")
      × (text "p" ≡ text "p")
      × (◌≡◌ {A = ℕ} 7 7)
      × (◌≡◌ {A = Text} [] []))
    ⊎ ((fed (text "A") (text "1") (text "p") 7 [] ≢ fed (text "A") (text "1") (text "p") 7 [])
        × (fed (text "A") (text "1") (text "p") 7 [] ≡ fed (text "A") (text "1") (text "p") 7 []))
cache_key-separates_example =
    cache_key-separates (λ s. s) (text "A") (text "1") (text "p") [] (text "A") (text "1")
      (text "p") [] 7 7 (refl, (refl, (refl, (refl, tt)))) (refl, (refl, (refl, (refl, tt)))) refl
