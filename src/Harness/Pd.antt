-- ===== src/Harness/Pd.antt =====
-- The HTTP client of crates/harness/src/cluster.rs, with `pd_addrs` of crates/harness/src/lib.rs: every
-- endpoint is tried in turn, and PD's JSON is read. The requests, the environment and the parser of
-- serde_json are parameters; a panic is an error or `none`, with what its message quotes.
pub mod First
pub mod Layout
pub mod Clock
pub mod Cross
use client_rust_test.Base.{
  ℕ, zero, suc, ◌-◌, Option, none, some, List, [], ◌∷◌, ◌++◌, Bool, ◌&&◌, ◌==◌, ltb, leb,
  if◌then◌else◌, Bytes, bytes_eq, text,
}
use client_rust_test.Base.Result.{Result, ok, err}
use client_rust_test.Proto.Json.{Json, Items, Fields, member, as_str, as_u64, as_array}
use client_rust_test.Harness.Memcomparable.{RegionInfo, locate}
use client_rust_test.Harness.CrossRegion.{Pd, hex_to_bytes}

-- `str::split` at a character
unfoldable pub split_at_byte : ℕ → Bytes → List Bytes
split_at_byte c [] = [] ∷ []
split_at_byte c (x ∷ xs) =
    if x == c then [] ∷ split_at_byte c xs else first_longer x (split_at_byte c xs)
  where
    first_longer : ℕ → List Bytes → List Bytes
    first_longer x [] = (x ∷ []) ∷ []
    first_longer x (piece ∷ pieces) = (x ∷ piece) ∷ pieces

-- `pd_addrs`, of the variable `PD_ADDRS`
unfoldable pub pd_addrs : Option Bytes → List Bytes
unfolding split_at_byte
pd_addrs none = split_at_byte 44 (text "127.0.0.1:2379")
pd_addrs (some addrs) = split_at_byte 44 addrs

-- `chars().take(n)`, of UTF-8: a byte that continues a character is not counted.
unfoldable pub take_chars : ℕ → Bytes → Bytes
take_chars n [] = []
take_chars zero (b ∷ bs) = if leb 0x80 b && leb b 0xbf then b ∷ take_chars zero bs else []
take_chars (suc n) (b ∷ bs) = b ∷ take_chars (if leb 0x80 b && leb b 0xbf then suc n else n) bs

pub record Reply : Type 0 where
  pub status : ℕ
  -- `text()`, which may fail
  pub body : Result Bytes Bytes

abbrev pub is_success : ℕ → Bool
is_success status = leb 200 status && ltb status 300

-- Why an endpoint is of no use, with its URL.
pub data Trouble : Type 0 where
  transport : (url message : Bytes) → Trouble
  http : (url : Bytes) (status : ℕ) (snippet : Bytes) → Trouble
  non_json : (url message snippet : Bytes) → Trouble

pub record Http : Type 1 where
  pub World : Type 0
  -- Requests, each under the timeout of the client
  pub get : Bytes → World → Result Bytes Reply × World
  pub post : Bytes → Json → World → Result Bytes Reply × World
  pub from_str : Bytes → Result Bytes Json
  pub addrs : Option Bytes
  pub now : World → ℕ × World
  pub sleep : ℕ → World → World

abbrev pub url_of : Bytes → Bytes → Bytes
url_of addr path = text "http://" ++ (addr ++ path)

-- `v["name"]`, which is `null` where there is no such member.
abbrev pub at_name : Bytes → Json → Json
at_name name v = elim (member name v) [ some found ↦ found | none ↦ Json.null ]

abbrev pub or_empty : Option Bytes → Bytes
or_empty none = []
or_empty (some s) = s

abbrev pub or_zero : Option ℕ → ℕ
or_zero none = 0
or_zero (some n) = n

abbrev pub region_with : ℕ → Option Bytes → Option Bytes → Option RegionInfo
region_with id (some start) (some end) = some (record { id = id; start = start; end = end })
region_with id _ _ = none

-- One entry of `regions`; `none` is the panic on a key that is not hex.
unfoldable pub region_info : Json → Option RegionInfo
region_info r =
    region_with (or_zero (as_u64 (at_name (text "id") r)))
      (hex_to_bytes (or_empty (as_str (at_name (text "start_key") r))))
      (hex_to_bytes (or_empty (as_str (at_name (text "end_key") r))))

abbrev pub both : {A : Type 0} → Option A → Option (List A) → Option (List A)
both (some a) (some as') = some (a ∷ as')
both _ _ = none

unfoldable pub region_infos : Items → Option (List RegionInfo)
unfolding region_info
region_infos Items.nil = some []
region_infos (Items.item r rs) = both (region_info r) (region_infos rs)

-- What `regions` makes of the answer; `none` is a panic.
unfoldable pub regions_of : Json → Option (List RegionInfo)
unfolding region_infos
regions_of v = elim (as_array (at_name (text "regions") v)) [
  | none ↦ none
  | some items ↦ region_infos items
]

abbrev pub is_text : Bytes → Option Bytes → Bool
is_text s o = elim o [ none ↦ Bool.false | some t ↦ bytes_eq t s ]

abbrev pub listed_id : Option ℕ → List ℕ → List ℕ
listed_id none ids = ids
listed_id (some id) ids = id ∷ ids

-- The ids of the stores that are up
unfoldable pub up_ids : Items → List ℕ
up_ids Items.nil = []
up_ids (Items.item s ss) =
    let store = at_name (text "store") s in
    let rest = up_ids ss in
    if is_text (text "Up") (as_str (at_name (text "state_name") store))
    then listed_id (as_u64 (at_name (text "id") store)) rest
    else rest

unfoldable pub stores_of : Json → List ℕ
unfolding up_ids
stores_of v = elim (as_array (at_name (text "stores") v)) [ none ↦ [] | some items ↦ up_ids items ]

abbrev pub split_body : ℕ → Bytes → Json
split_body region_id hex = Json.object (
    Fields.field (text "keys") (Json.array (Items.item (Json.string hex) Items.nil)) (
      Fields.field (text "name") (Json.string (text "split-region")) (
        Fields.field (text "policy") (Json.string (text "usekey"))
          (Fields.field (text "region_id") (Json.number region_id) Fields.end))))

module _ (http : Http) where
  unfoldable pub read_body : Bytes → ℕ → Bytes → Result Trouble Json
  unfolding take_chars
  read_body url status body =
      if is_success status
      then elim (http.from_str body) [
        | ok v ↦ ok v
        | err e ↦ err (non_json url e (take_chars 120 body))
      ]
      else err (Trouble.http url status (take_chars 120 body))

  unfoldable pub answer_of : Bytes → Result Bytes Reply → Result Trouble Json
  unfolding read_body
  answer_of url (err e) = err (transport url e)
  answer_of url (ok reply) = elim reply.body [
    | err e ↦ err (transport url e)
    | ok body ↦ read_body url reply.status body
  ]

  unfoldable pub try_pd : Bytes → http.World → Result Trouble Json × http.World
  unfolding answer_of
  try_pd url w = let (r, w') = http.get url w in (answer_of url r, w')

  -- The loop over the addresses, with the errors so far; its error is the panic.
  unfoldable pub get_loop :
      Bytes → List Bytes → List Trouble → http.World → Result (List Trouble) Json × http.World
  unfolding try_pd
  get_loop path [] errors w = (err errors, w)
  get_loop path (addr ∷ addrs) errors w =
      let (r, w') = try_pd (url_of addr path) w in
      elim r [ ok v ↦ (ok v, w') | err e ↦ get_loop path addrs (errors ++ e ∷ []) w' ]

  unfoldable pub pd_get : Bytes → http.World → Result (List Trouble) Json × http.World
  unfolding get_loop pd_addrs
  pd_get path w = get_loop path (pd_addrs http.addrs) [] w

  abbrev pub refusal : Bytes → Result Bytes Reply → Option Trouble
  refusal url (err e) = some (transport url e)
  refusal url (ok reply) =
      if is_success reply.status
      then none
      else some (Trouble.http url reply.status (elim reply.body [ ok body ↦ body | err e ↦ [] ]))

  unfoldable pub post_loop :
      Bytes
      → Json
      → List Bytes
      → List Trouble
      → http.World
      → Result (List Trouble) Unit × http.World
  post_loop path body [] errors w = (err errors, w)
  post_loop path body (addr ∷ addrs) errors w =
      let url = url_of addr path in
      let (r, w') = http.post url body w in
      elim (refusal url r) [
        | none ↦ (ok tt, w')
        | some e ↦ post_loop path body addrs (errors ++ e ∷ []) w'
      ]

  unfoldable pub pd_post : Bytes → Json → http.World → Result (List Trouble) Unit × http.World
  unfolding post_loop pd_addrs
  pd_post path body w = post_loop path body (pd_addrs http.addrs) [] w

  -- What a read of PD makes of the answer; `none` is the panic of either.
  abbrev pub read_pd : {A : Type 0} → Bytes → (Json → Option A) → http.World → Option A × http.World
  read_pd path f w = let (r, w') = pd_get path w in (elim r [ ok v ↦ f v | err es ↦ none ], w')

  unfoldable pub region_count : http.World → Option ℕ × http.World
  unfolding pd_get
  region_count = read_pd (text "/pd/api/v1/regions") (λ v. as_u64 (at_name (text "count") v))

  unfoldable pub regions : http.World → Option (List RegionInfo) × http.World
  unfolding pd_get regions_of
  regions = read_pd (text "/pd/api/v1/regions") regions_of

  unfoldable pub region_of : Bytes → http.World → Option (Option RegionInfo) × http.World
  unfolding regions
  region_of key w =
      let (r, w') = regions w in (elim r [ some rs ↦ some (locate rs key) | none ↦ none ], w')

  unfoldable pub stores_up : http.World → Option (List ℕ) × http.World
  unfolding pd_get stores_of
  stores_up = read_pd (text "/pd/api/v1/stores") (λ v. some (stores_of v))

  abbrev accepted : Result (List Trouble) Unit → Bool
  accepted (ok u) = Bool.true
  accepted (err es) = Bool.false

  -- What the wait for a boundary asks of PD
  abbrev pub over_http : Pd
  over_http = record {
    World = http.World;
    regions = regions;
    post_split = λ region_id hex w. (
      accepted (pd_post (text "/pd/api/v1/operators") (split_body region_id hex) w).0,
      (pd_post (text "/pd/api/v1/operators") (split_body region_id hex) w).1,
    );
    now = http.now;
    sleep = http.sleep;
  }
