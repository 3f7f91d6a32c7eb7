-- ===== src/Cache.antt =====
-- src/pqpatch/proposer/cache.py: the store of model responses, and the keys. The files of the store
-- are a list of keys with their responses; the clock and SHA-256 are parameters.
pub mod Replay
pub mod Keys
pub mod Samples
use nesy_pqpatch.Prelude.{
  ℕ, Text, text, text_eq, take, Bool, true, false, Option, none, some, List, [], ◌∷◌, ◌++◌,
  if◌then◌else◌,
}
use nesy_pqpatch.Python.{◌>>=◌, Exception, offline_cache_miss, Result, ok, raised, decimal, repr}

pub record CachedResponse : Type 0 where
  pub raw_text : Text
  pub backend_id : Text
  pub model_version : Text
  pub prompt_sha256 : Text
  pub seed : ℕ
  pub duration_ms : ℕ
  pub token_count : ℕ
  pub fetched_at_utc : Text
  -- none for an entry from before the request parameters were recorded
  pub request_spec_sha256 : Option Text

-- Each field with a null byte behind it.
unfoldable pub delimited : List Text → Text
delimited [] = []
delimited (part ∷ parts) = part ++ (0 ∷ delimited parts)

abbrev pub key_parts : Text → Text → Text → ℕ → Text → List Text
key_parts backend_id model_version prompt seed extra =
    backend_id ∷ model_version ∷ prompt ∷ decimal seed ∷ extra ∷ []

unfoldable pub cache_key : (Text → Text) → Text → Text → Text → ℕ → Text → Text
cache_key sha256_hex backend_id model_version prompt seed extra =
    sha256_hex (delimited (key_parts backend_id model_version prompt seed extra))

abbrev pub Files : Type 0
Files = List (Text × CachedResponse)

-- the file of a key
unfoldable pub read : Text → Files → Option CachedResponse
read key [] = none
read key ((k, response) ∷ files) = if text_eq k key then some response else read key files

-- The store: where its files are, and whether the network is off.
pub record CacheStore : Type 0 where
  pub dir : Text
  pub offline : Bool
  pub files : Files

-- <dir>/<key[:2]>/<key>.json.gz
unfoldable pub path : CacheStore → Text → Text
path store key = store.dir ++ (text "/" ++ (take 2 key ++ (text "/" ++ (key ++ text ".json.gz"))))

abbrev offline_error : Text → Exception
offline_error message = record {
  kind = offline_cache_miss;
  message = message;
  repr = text "OfflineCacheMissError(" ++ (repr message ++ text ")");
}

unfoldable pub miss_error : CacheStore → Text → Exception
miss_error store key = offline_error (
    text "cache miss for key "
    ++ (key ++ (text " while PQPATCH_OFFLINE=1 (expected " ++ (path store key ++ text ")"))))

unfoldable pub write_error : Text → Exception
write_error key = offline_error (
    text "refusing to write a new cache entry for key " ++ (key ++ text " while PQPATCH_OFFLINE=1"))

unfoldable pub get_cached : CacheStore → Text → Result (Option CachedResponse)
get_cached store key = elim (read key store.files) [
  | some response ↦ ok (some response)
  | none ↦ if store.offline then raised (miss_error store key) else ok none
]

unfoldable pub put : CacheStore → Text → CachedResponse → Result CacheStore
put store key response =
    if store.offline
    then raised (write_error key)
    else ok (record store { files = (key, response) ∷ store.files })

-- what a caller says of its request
pub record Request : Type 0 where
  pub backend_id : Text
  pub model_version : Text
  pub prompt_sha256 : Text
  pub seed : ℕ
  pub request_spec_sha256 : Option Text

-- the clock around a fetch
pub record Clock : Type 0 where
  pub duration_ms : ℕ
  pub now_utc : Text

unfoldable pub response_of : Request → Clock → Text × ℕ → CachedResponse
response_of request clock (raw_text, token_count) = record {
  raw_text = raw_text;
  backend_id = request.backend_id;
  model_version = request.model_version;
  prompt_sha256 = request.prompt_sha256;
  seed = request.seed;
  duration_ms = clock.duration_ms;
  token_count = token_count;
  fetched_at_utc = clock.now_utc;
  request_spec_sha256 = request.request_spec_sha256;
}

-- The response, the store afterwards, and whether the backend was called.
unfoldable pub get_or_fetch :
    CacheStore
    → Text
    → Result (Text × ℕ)
    → Request
    → Clock
    → Result (CachedResponse × CacheStore × Bool)
get_or_fetch store key fetch request clock = do
  cached ← get_cached store key
  elim cached [
    | some response ↦ ok (response, store, false)
    | none ↦ do
      fetched ← fetch
      let response = response_of request clock fetched
      store' ← put store key response
      ok (response, store', true)
  ]
