-- ===== src/Wire.antt =====
-- What the services take from outside for their HTTP interfaces, as parameters: IEEE numbers, the JSON
-- library (nlohmann/json) and the text format of the metrics (prometheus-cpp); and requests and
-- responses, as the handlers given to cpp-httplib see them.
pub mod Tests
use scylla_cluster_sync_cxx.Prelude.{
  ℕ, ◌^◌, ◌<◌, ◌≡◌, [], ◌∷◌, ltb, All, refl, Bool, true, false, List, ◌&&◌, Text, text_eq, codes,
  Option, none, some, find, if◌then◌else◌,
}
use scylla_cluster_sync_cxx.Svckit.Metrics.{Metrics}

-- `double` and `float`. `of_nat` and `of_nat_f` are conversions (of a literal too), `tenth` is the
-- literal 0.1, `truncate` is the cast of a number that is not negative to an integer, and
-- `fixed d x` is printf's "%.<d>f".
pub record Floats : Type 1 where
  pub Double : Type 0
  pub Float : Type 0
  pub of_nat : ℕ → Double
  pub tenth : Double
  pub add : Double → Double → Double
  pub mul : Double → Double → Double
  pub div : Double → Double → Double
  pub at_least : Double → Double → Bool
  pub truncate : Double → ℕ
  pub fixed : ℕ → Double → Text
  pub of_nat_f : ℕ → Float
  pub mul_f : Float → Float → Float
  pub div_f : Float → Float → Float
  pub widen : Float → Double

-- `json` over a type of numbers. `Body` is the text that travels; `raw` is a text that is no JSON.
-- `is_finite` is std::isfinite, which `dump` tests. `object` gives the object with these keys; `at` is `contains` and the operator `[]` together; the
-- `as` operations are `get`, with `none` for the exception.
pub record Json (D : Type 0) : Type 1 where
  pub Value : Type 0
  pub Body : Type 0
  pub raw : Text → Body
  pub count : ℕ → Value
  pub flag : Bool → Value
  pub text : Text → Value
  pub real : D → Value
  pub is_finite : D → Bool
  pub array : List Value → Value
  pub object : List (Text × Value) → Value
  pub is_object : Value → Bool
  pub at : Text → Value → Option Value
  pub as_count : Value → Option ℕ
  pub as_flag : Value → Option Bool
  pub as_real : Value → Option D
  pub dump : Value → Body
  pub parse : Body → Option Value

-- A text of ASCII characters alone.
unfoldable pub is_ascii : Text → Bool
is_ascii [] = true
is_ascii (c ∷ s) = ltb c 128 && is_ascii s

-- The documented behaviour of the library that the services rely on. It is stated of values that
-- are dumped without loss and without an exception: numbers that are finite or fit 64 bits, texts in
-- ASCII (of UTF-8), flags, and objects of these.
pub record IsLawful {D : Type 0} (J : Json D) : Type 1 where
  pub IsDumpable : J.Value → Type 0
  pub parse-dump : (v : J.Value) → IsDumpable v → J.parse (J.dump v) ≡ some v
  pub count-IsDumpable : (n : ℕ) → n < 2 ^ 64 → IsDumpable (J.count n)
  pub flag-IsDumpable : (b : Bool) → IsDumpable (J.flag b)
  pub text-IsDumpable : (t : Text) → is_ascii t ≡ true → IsDumpable (J.text t)
  pub real-IsDumpable : (x : D) → J.is_finite x ≡ true → IsDumpable (J.real x)
  pub object-IsDumpable :
      (m : List (Text × J.Value))
      → All (λ entry. (is_ascii entry.0 ≡ true) × IsDumpable entry.1) m
      → IsDumpable (J.object m)
  pub is_object-object : (m : List (Text × J.Value)) → J.is_object (J.object m) ≡ true
  pub at-object : (k : Text) (m : List (Text × J.Value)) → J.at k (J.object m) ≡ find k m
  pub as_count-count : (n : ℕ) → n < 2 ^ 64 → J.as_count (J.count n) ≡ some n
  pub as_flag-flag : (b : Bool) → J.as_flag (J.flag b) ≡ some b
  pub as_real-real : (x : D) → J.as_real (J.real x) ≡ some x

-- An entry of an object that can be dumped.
abbrev pub IsEntry : {D : Type 0} (J : Json D) → IsLawful J → Text × J.Value → Type 0
IsEntry J lawful entry = (is_ascii entry.0 ≡ true) × lawful.IsDumpable entry.1

-- `m.value(key, d)`, read by `get`: the default stands for a key that is absent.
unfoldable pub value :
    {D A : Type 0} (J : Json D) → (J.Value → Option A) → J.Value → Text → A → Option A
value J get m key d =
    if J.is_object m then elim (J.at key m) [ none ↦ some d | some v ↦ get v ] else none

pub data Method : Type 0 where
  http_get http_post : Method

pub record Request : Type 0 where
  pub method : Method
  pub path : Text

pub record Response (Body : Type 0) : Type 0 where
  pub status : ℕ
  pub content_type : Text
  pub body : Body

-- A handler's `set_content`; the status is 200 where the handler sets none.
abbrev pub ok_response : {Body : Type 0} → Text → Body → Response Body
ok_response kind body = record { status = 200; content_type = kind; body = body }

abbrev pub not_found : {Body : Type 0} → Body → Response Body
not_found body = record { status = 404; content_type = codes ""; body = body }

same_method : Method → Method → Bool
same_method http_get http_get = true
same_method http_get http_post = false
same_method http_post http_get = false
same_method http_post http_post = true

-- Whether the handler registered for this method and path gets the request.
unfoldable pub routes : Method → Text → Request → Bool
unfolding same_method
routes method path r = same_method method r.method && text_eq path r.path

-- A request of a method and a path that are given.
pub routes_get :
    (path : Text) (r : Request)
    → routes http_get path r ≡ elim r.method [ http_get ↦ text_eq path r.path | http_post ↦ false ]
unfolding routes
routes_get path r = by_method r.method
  where
    by_method :
        (m : Method)
        → (same_method http_get m && text_eq path r.path)
          ≡ elim m [ http_get ↦ text_eq path r.path | http_post ↦ false ]
    by_method http_get = refl
    by_method http_post = refl

pub routes_post :
    (path : Text) (r : Request)
    → routes http_post path r ≡ elim r.method [ http_get ↦ false | http_post ↦ text_eq path r.path ]
unfolding routes
routes_post path r = by_method r.method
  where
    by_method :
        (m : Method)
        → (same_method http_post m && text_eq path r.path)
          ≡ elim m [ http_get ↦ false | http_post ↦ text_eq path r.path ]
    by_method http_get = refl
    by_method http_post = refl

-- The handler of /metrics; `serialize` is the text format, `metrics` may be null.
unfoldable pub metrics_response :
    {D : Type 0} (J : Json D) → (Metrics → Text) → Option Metrics → Response J.Body
metrics_response J serialize none =
    ok_response (codes "text/plain") (J.raw (codes "# no metrics\n"))
metrics_response J serialize (some m) =
    ok_response (codes "text/plain; version=0.0.4") (J.raw (serialize m))

pub metrics_response_status :
    {D : Type 0} (J : Json D) (serialize : Metrics → Text) (metrics : Option Metrics)
    → (metrics_response J serialize metrics).status ≡ 200
unfolding metrics_response
metrics_response_status J serialize none = refl
metrics_response_status J serialize (some m) = refl
