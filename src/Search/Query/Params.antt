-- ===== src/Search/Query/Params.antt =====
-- The constructors of SearchQuery from the parameters of an ADC search and from an NMDC one.
use airdcpp_core.Base.{
  ℕ, ◌+◌, ◌-◌, ◌/◌, ◌%◌, ◌^◌, ◌≡◌, refl, sym, ◌∙◌, inl, inr, Bool, false, ◌&&◌, none, some, List,
  [], ◌∷◌, ◌++◌, leb, ◌==◌, if◌then◌else◌, Bool-cases, length, drop, replicate, length-replicate,
  Bytes,
}
use airdcpp_core.Text.Utf8.{byte_at, to_lower}
use airdcpp_core.Text.StringSearch.{Pattern, add_string}
use airdcpp_core.Search.Query.Types.{SearchQuery, type_file, path_partial}
use airdcpp_core.Search.Query.Places.{IsCounted, count_some-replicate}

-- How numbers, times and tree roots are read, as bit patterns, what lowers a character, and the
-- extensions of each group of files.
pub record Reader : Type 0 where
  pub read_int : Bytes → ℕ
  pub read_int64 : Bytes → ℕ
  pub read_time : Bytes → ℕ
  pub tth_value : Bytes → ℕ
  pub towlower : ℕ → ℕ
  pub search_exts : List (List Bytes)

abbrev pub max_int64 : ℕ
max_int64 = 2 ^ 63 - 1

unfoldable pub new_query : (max_results : ℕ) → SearchQuery
new_query n = record {
  include = [];
  exclude = [];
  ext = [];
  no_ext = [];
  recursion = none;
  gt = 0;
  lt_size = max_int64;
  min_date = 0;
  max_date = max_int64;
  tth_root = none;
  max_results = n;
  match_type = path_partial;
  add_parents = false;
  item_type = 0;
  last_positions = [];
  last_matches = 0;
}

unfoldable pub prepare : SearchQuery → SearchQuery
prepare q = record q {
  last_positions = replicate (length q.include) none;
  item_type = if length q.ext == 0 then q.item_type else type_file;
}

-- AdcHub::parseSearchExts: the groups whose bit is set, each in front of those before it.
unfoldable pub parse_search_exts :
    (exts : List (List Bytes)) → (flag bit : ℕ) → (ret : List Bytes) → List Bytes
parse_search_exts [] flag bit ret = ret
parse_search_exts (e ∷ es) flag bit ret =
    parse_search_exts es flag (bit + 1) (if (flag / 2 ^ bit) % 2 == 1 then e ++ ret else ret)

abbrev pub has_code : ℕ → ℕ → Bytes → Bool
has_code a b p = (byte_at p == a) && (byte_at (drop 1 p) == b)

-- The codes of the parameters; a tree root is read apart from them.
pub data Param : Type 0 where
  an_param no_param ex_param gr_param rx_param ge_param le_param eq_param ty_param mt_param ot_param
        nt_param pp_param other_param :
      Param

unfoldable pub param_of : Bytes → Param
param_of p =
    if has_code b'A' b'N' p
    then an_param
    else if has_code b'N' b'O' p
    then no_param
    else if has_code b'E' b'X' p
    then ex_param
    else if has_code b'G' b'R' p
    then gr_param
    else if has_code b'R' b'X' p
    then rx_param
    else if has_code b'G' b'E' p
    then ge_param
    else if has_code b'L' b'E' p
    then le_param
    else if has_code b'E' b'Q' p
    then eq_param
    else if has_code b'T' b'Y' p
    then ty_param
    else if has_code b'M' b'T' p
    then mt_param
    else if has_code b'O' b'T' p
    then ot_param
    else if has_code b'N' b'T' p
    then nt_param
    else if has_code b'P' b'P' p
    then pp_param
    else other_param

module _ (r : Reader) where
  -- `v` is what stands behind the code.
  unfoldable pub set_value : Param → (v : Bytes) → SearchQuery → SearchQuery
  unfolding parse_search_exts
  set_value an_param v q = record q { include = add_string r.towlower v q.include }
  set_value no_param v q = record q { exclude = add_string r.towlower v q.exclude }
  set_value ex_param v q = record q { ext = q.ext ++ (to_lower r.towlower v ∷ []) }
  set_value gr_param v q = record q {
    ext = parse_search_exts r.search_exts (r.read_int v) 0 [] ++ q.ext;
  }
  set_value rx_param v q = record q { no_ext = q.no_ext ++ (to_lower r.towlower v ∷ []) }
  set_value ge_param v q = record q { gt = r.read_int64 v }
  set_value le_param v q = record q { lt_size = r.read_int64 v }
  set_value eq_param v q = record q { gt = r.read_int64 v; lt_size = r.read_int64 v }
  set_value ty_param v q = record q { item_type = r.read_int v }
  set_value mt_param v q = record q { match_type = r.read_int v % 256 }
  set_value ot_param v q = record q { max_date = r.read_time v }
  set_value nt_param v q = record q { min_date = r.read_time v }
  set_value pp_param v q = record q { add_parents = byte_at v == b'1' }
  set_value other_param v q = q

  unfoldable pub set_param : Bytes → SearchQuery → SearchQuery
  unfolding set_value param_of
  set_param p q = set_value (param_of p) (drop 2 p) q

  -- The loop over the parameters; a tree root ends it, and nothing is prepared then.
  unfoldable pub adc_params : List Bytes → SearchQuery → SearchQuery
  unfolding set_param prepare
  adc_params [] q = prepare q
  adc_params (p ∷ ps) q =
      let skipped = adc_params ps q in
      let set = adc_params ps (set_param p q) in
      if leb (length p) 2
      then skipped
      else if has_code b'T' b'R' p
      then record q { tth_root = some (r.tth_value (drop 2 p)) }
      else set

  unfoldable pub of_adc : List Bytes → (max_results : ℕ) → SearchQuery
  unfolding adc_params new_query
  of_adc params n = adc_params params (new_query n)

  -- Names from a search are added as they are given.
  unfoldable pub add_all : List Bytes → List Pattern → List Pattern
  add_all [] ps = ps
  add_all (s ∷ ss) ps = add_all ss (add_string r.towlower s ps)

  -- A search for words that are split already.
  unfoldable pub of_words : (words excluded exts : List Bytes) → (match_type : ℕ) → SearchQuery
  unfolding add_all prepare new_query
  of_words words excluded exts m = prepare (record (new_query 0) {
    include = add_all words [];
    exclude = add_all excluded [];
    ext = lowered exts;
    match_type = m;
  })
    where
      lowered : List Bytes → List Bytes
      lowered [] = []
      lowered (e ∷ es) = to_lower r.towlower e ∷ lowered es

prepare-IsCounted : (q : SearchQuery) → q.last_matches ≡ 0 → IsCounted (prepare q)
unfolding prepare
prepare-IsCounted q h = record {
  one_each = length-replicate (length q.include) none;
  counted = count_some-replicate (length q.include) ∙ sym h;
}

-- Nothing was matched.
record IsFresh (q : SearchQuery) : Type 0 where
  no_match : q.last_matches ≡ 0
  none_above : q.recursion ≡ none

-- A query that is ready to match names: one place for each pattern, all of them free, no directories
-- above, and the type of a file where extensions are asked for.
pub record IsReady (q : SearchQuery) : Type 0 where
  pub places_free : IsCounted q
  pub unmatched : q.last_matches ≡ 0
  pub at_top : q.recursion ≡ none
  pub typed_by_ext : (length q.ext == 0) ≡ false → q.item_type ≡ type_file

prepare-IsReady : (q : SearchQuery) → IsFresh q → IsReady (prepare q)
unfolding prepare
prepare-IsReady q h = record {
  places_free = prepare-IsCounted q h.no_match;
  unmatched = h.no_match;
  at_top = h.none_above;
  typed_by_ext = λ e. rw e refl;
}

module _ (r : Reader) where
  set_value-IsFresh :
      (c : Param) (v : Bytes) (q : SearchQuery) → IsFresh q → IsFresh (set_value r c v q)
  unfolding set_value
  set_value-IsFresh an_param v q k = record { no_match = k.no_match; none_above = k.none_above }
  set_value-IsFresh no_param v q k = record { no_match = k.no_match; none_above = k.none_above }
  set_value-IsFresh ex_param v q k = record { no_match = k.no_match; none_above = k.none_above }
  set_value-IsFresh gr_param v q k = record { no_match = k.no_match; none_above = k.none_above }
  set_value-IsFresh rx_param v q k = record { no_match = k.no_match; none_above = k.none_above }
  set_value-IsFresh ge_param v q k = record { no_match = k.no_match; none_above = k.none_above }
  set_value-IsFresh le_param v q k = record { no_match = k.no_match; none_above = k.none_above }
  set_value-IsFresh eq_param v q k = record { no_match = k.no_match; none_above = k.none_above }
  set_value-IsFresh ty_param v q k = record { no_match = k.no_match; none_above = k.none_above }
  set_value-IsFresh mt_param v q k = record { no_match = k.no_match; none_above = k.none_above }
  set_value-IsFresh ot_param v q k = record { no_match = k.no_match; none_above = k.none_above }
  set_value-IsFresh nt_param v q k = record { no_match = k.no_match; none_above = k.none_above }
  set_value-IsFresh pp_param v q k = record { no_match = k.no_match; none_above = k.none_above }
  set_value-IsFresh other_param v q k = k

  adc_params-IsReady :
      (ps : List Bytes) (q : SearchQuery)
      → IsFresh q
      → (adc_params r ps q).tth_root ≡ none
      → IsReady (adc_params r ps q)
  unfolding adc_params set_param
  adc_params-IsReady [] q k h = prepare-IsReady q k
  adc_params-IsReady (p ∷ ps) q k h = elim (Bool-cases (leb (length p) 2)) [
    | inl e ↦ rw (adc_params, e) (adc_params-IsReady ps q k (rw (adc_params, e) at h))
    | inr e ↦ elim (Bool-cases (has_code b'T' b'R' p)) [
      | inl g ↦ absurd (rooted (rw (adc_params, e, g) at h))
      | inr g ↦
          rw (adc_params, e, g)
            (adc_params-IsReady ps (set_param r p q) (set_value-IsFresh (param_of p) (drop 2 p) q k)
              (rw (adc_params, e, g) at h))
    ]
  ]
    where
      rooted : {n : ℕ} → ¬ (some n ≡ none)
      rooted e = cc

  -- A query that is read from the parameters of an ADC search without a tree root has one free
  -- place for each pattern, no match counted, no directories above, and asks for files where it has
  -- extensions.
  pub of_adc-IsReady :
      (params : List Bytes) (n : ℕ)
      → (of_adc r params n).tth_root ≡ none
      → IsReady (of_adc r params n)
  unfolding of_adc new_query
  of_adc-IsReady params n h =
      adc_params-IsReady params (new_query n) (record { no_match = refl; none_above = refl }) h
