-- ===== src/Server/Http.antt =====
-- What a handler of the service has to work with, and what it replies. The standard library has parsed the
-- request line and the headers; `Arrival` is what becomes of the body: the client stalls until the deadline,
-- or closes early, or the bytes are no JSON that `json.loads` takes, or they are.
use php_python_ai_bridge.Base.{ℕ, Bool, true, false, ◌&&◌, List, Option, none, some, String}
use php_python_ai_bridge.Json.{
  Value, infinite, arr, obj, Items, item, end_items, Members, member, end_members,
}
use php_python_ai_bridge.Jobs.Types.{PublicJob}
use php_python_ai_bridge.Jobs.Snapshot.{Snapshot}

pub data Arrival : Type 0 where
  stalled cut_short no_json : Arrival
  parsed : Value → Arrival

pub data Method : Type 0 where
  get_method post_method other_method : Method

pub record HttpRequest : Type 0 where
  pub method : Method
  pub known_version : Bool
  pub path : String
  pub authorization : List String
  pub content_lengths : List String
  pub transfer_encoding : Bool
  pub content_type : String
  pub arrival : Arrival

pub data Body : Type 0 where
  healthy : (backend : String) → Body
  ready : Body
  not_ready : (reason : String) → Body
  metrics : Snapshot → Body
  a_job : PublicJob → Body
  error : (code : String) → Body

pub record Response : Type 0 where
  pub status : ℕ
  pub body : Body
  pub retry_after : Option ℕ

-- What `json.dumps(value, allow_nan=False)` takes; `json.loads` reads a number beyond every float as an
-- infinite one.
unfoldable mutual
  is_finite : Value → Bool
  is_finite infinite = false
  is_finite (arr vs) = finite_items vs
  is_finite (obj ms) = finite_members ms
  is_finite _ = true

  finite_items : Items → Bool
  finite_items end_items = true
  finite_items (item v vs) = is_finite v && finite_items vs

  finite_members : Members → Bool
  finite_members end_members = true
  finite_members (member k v ms) = is_finite v && finite_members ms

-- Whether `json.dumps` takes a job; of what `public` shows, only a result may hold any number.
unfoldable pub is_encodable : PublicJob → Bool
unfolding is_finite
is_encodable j = elim j.result [ none ↦ true | some v ↦ is_finite v ]
