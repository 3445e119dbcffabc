-- ===== src/Tests/Pd.antt =====
-- PD behind two endpoints, of which the first is down.
use client_rust_test.Base.{
  ℕ, ◌+◌, ◌≡◌, refl, some, List, [], ◌∷◌, true, bytes_eq, bytes_lt, text, if◌then◌else◌, arith,
}
use client_rust_test.Base.Result.{ok, err}
use client_rust_test.Proto.Json.{as_array, member, as_str, as_u64}
use client_rust_test.Harness.Memcomparable.{RegionInfo, locate, contains, encode_key}
use client_rust_test.Harness.CrossRegion.{
  met, timeout, hex_to_bytes, region_pair, round_with, round, cross_loop, ensure_cross_region,
}
use client_rust_test.Harness.Pd.{
  Http, over_http, regions, pd_addrs, split_at_byte, pd_get, get_loop, try_pd, answer_of, read_body,
  regions_of,
}
use client_rust_test.Harness.Pd.First.{Answered, pd_get-Answered}
use client_rust_test.Harness.Pd.Clock.{HttpClocked}
use client_rust_test.Harness.Pd.Cross.{layout_path, ensure_cross_region-over_http}
use client_rust_test.Harness.Pd.Cross
use client_rust_test.Harness.Pd.Layout.{hex, layout, regions_of-layout}

abbrev two_regions : List RegionInfo
two_regions =
    record { id = 4; start = []; end = 171 ∷ [] }
    ∷ record { id = 6; start = 171 ∷ []; end = [] }
    ∷ []

abbrev http : Http
http = record {
  World = ℕ;
  get = λ url w. (
    if bytes_eq url (text "http://b/pd/api/v1/regions")
        then ok (record { status = 200; body = ok (text "layout") })
        else err (text "connection refused"),
    w + 1,
  );
  post = λ url body w. (err [], w + 1);
  from_str = λ body. if bytes_eq body (text "layout") then ok (layout true two_regions) else err [];
  addrs = some (text "a,b");
  now = λ w. (w, w);
  sleep = λ d w. w + d;
}

pd_get-Answered_example :
    Answered http layout_path (pd_addrs http.addrs) 0 (pd_get http layout_path 0)
pd_get-Answered_example = pd_get-Answered http layout_path 0

second_endpoint : pd_get http layout_path 0 ≡ (ok (layout true two_regions), 2)
unfolding pd_get pd_addrs split_at_byte get_loop try_pd answer_of read_body bytes_eq text
second_endpoint = refl

regions_of-layout_example : regions_of (layout true two_regions) ≡ some two_regions
regions_of-layout_example =
    regions_of-layout true two_regions
      ((omega arith, tt, (omega arith, tt)), ((omega arith, (omega arith, tt), tt), tt))

abbrev ticking : HttpClocked http
ticking = record {
  time = λ w. w;
  now_read = λ w. omega arith;
  now_after = λ w. omega arith;
  sleeps = λ d w. omega arith;
  get_later = λ url w. omega arith;
  post_later = λ url body w. omega arith;
}

-- `a` lies below the boundary of the two regions and 200 above it.
ensure_cross_region-over_http_example :
    Cross.Answered http ticking
      (97 ∷ [])
      (200 ∷ [])
      (0 + timeout)
      (ensure_cross_region (over_http http) (97 ∷ []) (200 ∷ []) (171 ∷ []) 91 0)
unfolding bytes_lt
ensure_cross_region-over_http_example =
    ensure_cross_region-over_http http ticking (97 ∷ []) (200 ∷ []) (171 ∷ []) 91 0 (omega arith)
      refl refl

met_at_once :
    ensure_cross_region (over_http http) (97 ∷ []) (200 ∷ []) (171 ∷ []) 91 0 ≡ (some met, 2)
unfolding ensure_cross_region cross_loop round round_with region_pair locate contains encode_key
    bytes_lt regions regions_of pd_get pd_addrs split_at_byte get_loop try_pd answer_of read_body
    bytes_eq text as_array member hex_to_bytes as_str hex as_u64
met_at_once = refl
