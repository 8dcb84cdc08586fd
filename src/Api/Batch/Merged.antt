-- ===== src/Api/Batch/Merged.antt =====
-- What `_batch_get` (custom_components/zte_router_5g/api.py) gives its caller.
use Prim.Native.String.{count as len}
use ha_zte_router_5g_monitor.Prelude.{
  ℕ, ◌+◌, ◌*◌, ◌≤◌, ◌≡◌, refl, sym, ◌∙◌, ap, Option, none, some, List, [], ◌∷◌, String, eq_iff,
  length, arith, if◌then◌else◌, Option-cases, inl, inr,
}
use ha_zte_router_5g_monitor.Prelude.Names.{member, member-append}
use ha_zte_router_5g_monitor.Prelude.Dict.{get, put, get-put}
use ha_zte_router_5g_monitor.Value.{Value, Payload}
use ha_zte_router_5g_monitor.Api.Request.Client.{dict, World, Client, Outcome, returned}
use ha_zte_router_5g_monitor.Api.Request.Perform.{request}
use ha_zte_router_5g_monitor.Api.Request.Bounds.{request_sent_twice}
use ha_zte_router_5g_monitor.Api.Batch.{
  Batch, merged, failed, updated, after_answer, get_chunks, path_prefix, split_by_url_budget,
  chunk_call, batch_get,
}
use ha_zte_router_5g_monitor.Api.Batch.Chunks.{concat, split_by_url_budget_lem}

-- The response of a router that answers each name by itself, as it stands in the list asked for.
abbrev pub answers_to : (String → Value) → List String → Payload
answers_to answer [] = []
answers_to answer (name ∷ names) = (name, answer name) ∷ answers_to answer names

get-updated :
    (answer : String → Value) (m : Payload) (names : List String) (key : String)
    → get (updated m (answers_to answer names)) key
      ≡ (if member key names then some (answer key) else get m key)
unfolding updated
get-updated answer m [] key = refl
get-updated answer m (name ∷ names) key = ground (
  arith,
  get-updated answer (put m name (answer name)) names key,
  get-put m name key (answer name),
  eq_iff name key,
)

get-answers_to :
    (answer : String → Value) (names : List String) (key : String)
    → get (answers_to answer names) key ≡ (if member key names then some (answer key) else none)
get-answers_to answer [] key = refl
get-answers_to answer (name ∷ names) key =
    ground (arith, get-answers_to answer names key, eq_iff name key)

-- What the batch holds under a key, where it did not fail.
abbrev pub holds : Batch → String → Option Value
holds (merged m) key = get m key
holds (failed o) key = none

-- Each request, in the state that those before it leave, returns what the router answers to its names.
abbrev pub Answers {ℓ} :
    {S : Type ℓ}
    → (List String → S → Outcome × S)
    → (String → Value)
    → List (List String)
    → S
    → Type 0
Answers ask answer [] s = Unit {0}
Answers ask answer (chunk ∷ chunks) s =
    ((ask chunk s).0 ≡ returned (dict (answers_to answer chunk)))
    × Answers ask answer chunks (ask chunk s).1

get_chunks_holds {ℓ} :
    {S : Type ℓ} (ask : List String → S → Outcome × S) (answer : String → Value)
    (chunks : List (List String)) (m : Payload) (s : S) (key : String)
    → Answers ask answer chunks s
    → holds (get_chunks ask chunks m s).0 key
      ≡ (if member key (concat chunks) then some (answer key) else get m key)
unfolding get_chunks
get_chunks_holds ask answer [] m s key h = refl
get_chunks_holds ask answer (chunk ∷ chunks) m s key h =
    let r =
      get_chunks_holds ask answer chunks (updated m (answers_to answer chunk)) (ask chunk s).1 key
        h.1 in
    let u = get-updated answer m chunk key in
    let e = h.0 in let a = member-append key chunk (concat chunks) in ground (arith, r, u, e, a)

-- How a batch asks for one chunk.
abbrev pub ask_chunk : World → List String → List String → Client → Outcome × Client
ask_chunk w unauthenticated chunk c = request w (chunk_call unauthenticated chunk) c

-- Splitting does not change what a caller gets: where each request of the batch, in the state that those
-- before it leave, returns what the router answers to the names of its chunk, the batch holds under every
-- key what one request for all the names would have answered.
pub batch_is_one_request :
    (w : World) (address : ℕ) (params : List String) (c : Client) (answer : String → Value)
    (key : String)
    → Answers
        (ask_chunk w c.unauthenticated)
        answer
        (split_by_url_budget (address + len path_prefix) params)
        c
    → holds (batch_get w address params c).0 key ≡ get (answers_to answer params) key
unfolding batch_get
batch_is_one_request w address params c answer key h =
    let overhead : ℕ = address + len path_prefix in
    let r =
      get_chunks_holds (ask_chunk w c.unauthenticated) answer (split_by_url_budget overhead params)
        [] c key h in
    let e = (split_by_url_budget_lem overhead params).0 in
    r
    ∙ ap (λ names. if member key names then some (answer key) else none) e
    ∙ sym (get-answers_to answer params key)

-- A batch puts each request twice at most.
get_chunks_sends :
    (w : World) (unauthenticated : List String) (chunks : List (List String)) (m : Payload)
    (c : Client)
    → (get_chunks (λ chunk c'. request w (chunk_call unauthenticated chunk) c') chunks m c).1.sends
      ≤ c.sends + 2 * length chunks
unfolding get_chunks
get_chunks_sends w u [] m c = omega arith
get_chunks_sends w u (chunk ∷ chunks) m c =
    let answer = request w (chunk_call u chunk) c in
    let b = (request_sent_twice w (chunk_call u chunk) c).0 in
    elim (Option-cases (after_answer m answer.0)) [
      | inl n ↦ ground (arith, b)
      | inr (m', e) ↦ let r = get_chunks_sends w u chunks m' answer.1 in ground (arith, b, r)
    ]

-- A batch sends at most two requests for each of its chunks, whatever the router answers.
pub batch_get_sends :
    (w : World) (address : ℕ) (params : List String) (c : Client)
    → (batch_get w address params c).1.sends
      ≤ c.sends + 2 * length (split_by_url_budget (address + len path_prefix) params)
unfolding batch_get
batch_get_sends w address params c =
    get_chunks_sends w c.unauthenticated (split_by_url_budget (address + len path_prefix) params) []
      c
