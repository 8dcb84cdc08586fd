-- ===== src/Api/Batch.antt =====
-- `_split_by_url_budget` and `_batch_get` (custom_components/zte_router_5g/api.py): a list of names is
-- read in as many requests as the length of a URL allows. The counters of `_note_populated` are left
-- out.
pub mod Chunks
pub mod Merged
use Prim.Native.String.{count as len, ◌++◌ as append}
use ha_zte_router_5g_monitor.Prelude.{
  ℕ, suc, ◌+◌, Bool, true, false, ◌&&◌, Option, none, some, List, [], ◌∷◌, ◌++◌, String, ltb,
}
use ha_zte_router_5g_monitor.Prelude.Dict.{Dict, put}
use ha_zte_router_5g_monitor.Value.{Value, Payload}
use ha_zte_router_5g_monitor.Api.Classify.{is_classifiable}
use ha_zte_router_5g_monitor.Api.Request.Client.{
  Method, Call, Json, dict, other, World, Client, Outcome, returned, raised, out_of_fuel,
}
use ha_zte_router_5g_monitor.Api.Request.Perform.{request}

-- `BATCH_URL_MAX_CHARS`.
abbrev pub url_max : ℕ
url_max = 1600

-- `_BATCH_PATH_PREFIX`.
abbrev pub path_prefix : String
path_prefix =
    "goform/goform_get_cmd_process?multi_data=1&isTest=false&sms_received_flag_flag=0&cmd="

abbrev pub is_filled {ℓ} : {A : Type ℓ} → List A → Bool
is_filled [] = false
is_filled (_ ∷ _) = true

-- The characters that a name adds: its own and a comma.
abbrev pub addition : String → ℕ
addition name = len name + 1

-- The loop, with the last of `chunks` and the `length` of its URL so far.
unfoldable pub split_from : ℕ → List String → ℕ → List String → List (List String)
split_from overhead chunk length [] = chunk ∷ []
split_from overhead chunk length (name ∷ names) =
    elim (is_filled chunk && ltb url_max (length + addition name)) [
      | true ↦ chunk ∷ split_from overhead (name ∷ []) (overhead + addition name) names
      | false ↦ split_from overhead (chunk ++ name ∷ []) (length + addition name) names
    ]

-- `_split_by_url_budget`, with `overhead` the length of the address and the path.
unfoldable pub split_by_url_budget : ℕ → List String → List (List String)
split_by_url_budget overhead params = split_from overhead [] overhead params

-- `merged.update(data)`.
unfoldable pub updated : Payload → Payload → Payload
updated merged [] = merged
updated merged ((key, value) ∷ d) = updated (put merged key value) d

-- How the batch ends: with the answers merged, or as the request that failed did.
pub data Batch : Type 0 where
  merged : Payload → Batch
  failed : Outcome → Batch

abbrev pub after_answer : Payload → Outcome → Option Payload
after_answer m (returned (dict d)) = some (updated m d)
after_answer m (returned other) = some m
after_answer m _ = none

-- The loop of `_batch_get`, over any way to ask for a chunk.
unfoldable pub get_chunks {ℓ} :
    {S : Type ℓ} → (List String → S → Outcome × S) → List (List String) → Payload → S → Batch × S
get_chunks ask [] m s = (merged m, s)
get_chunks ask (chunk ∷ chunks) m s =
    let (answer, s') = ask chunk s in
    elim (after_answer m answer) [
      | none ↦ (failed answer, s')
      | some m' ↦ get_chunks ask chunks m' s'
    ]

-- `",".join(chunk)`.
unfoldable pub joined : List String → String
joined [] = ""
joined (name ∷ []) = name
joined (name ∷ name' ∷ names) = append name (append "," (joined (name' ∷ names)))

-- The request for one chunk.
unfoldable pub chunk_call : List String → List String → Call
chunk_call unauthenticated chunk = record {
  method = Method.get;
  path = append path_prefix (joined chunk);
  body = "";
  authenticated = true;
  requested = some chunk;
  classify = is_classifiable chunk unauthenticated;
  retry = true;
  after_relogin = false;
}

-- `_batch_get`, with the length of the client's own address.
unfoldable pub batch_get : World → ℕ → List String → Client → Batch × Client
batch_get w address params c =
    let ask =
      λ (chunk : List String) (c' : Client). request w (chunk_call c.unauthenticated chunk) c' in
    get_chunks ask (split_by_url_budget (address + len path_prefix) params) [] c
