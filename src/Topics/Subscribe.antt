-- ===== src/Topics/Subscribe.antt =====
-- The list of topic filters: all that were asked for, none twice, in a stable order.
use ha_eisenberg.Common.{
  ◌≡◌, refl, sym, ◌∙◌, [], ◌∷◌, ◌++◌, List, String, Bool, true, false, not, ◌&&◌, ◌||◌, Bool-cases,
  inl, inr, arith, map, if◌then◌else◌, str_eq, str_eq_iff, append_assoc, append-nil,
}
use ha_eisenberg.Topics.{
  contains, add_missing, build_subscribe_topics, base_wildcard, user_wildcard,
}

pub contains-append :
    (xs ys : List String) (t : String) → contains (xs ++ ys) t ≡ (contains xs t || contains ys t)
unfolding contains
contains-append [] ys t = refl
contains-append (x ∷ xs) ys t = ground (arith, contains-append xs ys t)

pub contains-cons :
    (x : String) (xs : List String) (t : String)
    → contains (x ∷ xs) t ≡ (str_eq x t || contains xs t)
unfolding contains
contains-cons x xs t = refl

pub contains-nil : (t : String) → contains [] t ≡ false
unfolding contains
contains-nil t = refl

-- No topic stands in the list twice.
unfoldable pub is_distinct : List String → Bool
is_distinct [] = true
is_distinct (t ∷ ts) = not (contains ts t) && is_distinct ts

pub is_distinct-concat :
    (xs : List String) (t : String)
    → contains xs t ≡ false
    → is_distinct (xs ++ (t ∷ [])) ≡ is_distinct xs
unfolding is_distinct
is_distinct-concat [] t h = ground (arith, contains-nil t)
is_distinct-concat (x ∷ xs) t h = ground (
  arith,
  contains-cons x xs t,
  contains-append xs (t ∷ []) x,
  contains-cons t [] x,
  contains-nil x,
  str_eq_iff x t,
  str_eq_iff t x,
  is_distinct-concat xs t,
)

contains-step :
    (topics : List String) (e : String) (extra : List String) (t : String)
    → (contains (if contains topics e then topics else topics ++ (e ∷ [])) t || contains extra t)
      ≡ (contains topics t || contains (e ∷ extra) t)
contains-step topics e extra t = ground (
  arith,
  contains-cons e extra t,
  contains-append topics (e ∷ []) t,
  contains-cons e [] t,
  contains-nil t,
  str_eq_iff e t,
)

-- The loop adds what is asked for, and nothing else.
pub contains-add_missing :
    (topics extra : List String) (t : String)
    → contains (add_missing topics extra) t ≡ (contains topics t || contains extra t)
unfolding add_missing
contains-add_missing topics [] t = ground (arith, contains-nil t)
contains-add_missing topics (e ∷ extra) t =
    contains-add_missing (if contains topics e then topics else topics ++ (e ∷ [])) extra t
    ∙ contains-step topics e extra t

pub is_distinct-add_missing :
    (topics extra : List String)
    → is_distinct topics ≡ true
    → is_distinct (add_missing topics extra) ≡ true
unfolding add_missing
is_distinct-add_missing topics [] h = h
is_distinct-add_missing topics (e ∷ extra) h =
    is_distinct-add_missing (if contains topics e then topics else topics ++ (e ∷ [])) extra
      (ground (arith, is_distinct-concat topics e))

-- What was there stays in front, in its order.
pub add_missing-prefix :
    (topics extra : List String)
    → (added : List String) × (add_missing topics extra ≡ topics ++ added)
unfolding add_missing
add_missing-prefix topics [] = ([], sym (append-nil topics))
add_missing-prefix topics (e ∷ extra) = elim (Bool-cases (contains topics e)) [
  | inl old ↦ let (added, same) = add_missing-prefix topics extra in (added, rw old same)
  | inr new ↦
      let (added, same) = add_missing-prefix (topics ++ (e ∷ [])) extra in
      ((e ∷ added), rw new (same ∙ append_assoc topics (e ∷ []) added))
]

-- The filters to subscribe to are the account's wildcards in their order, and then what the devices
-- declare and is not there yet: each filter asked for is in the list, and no other.
pub build_subscribe_topics_lem :
    (x_cloud_ids : List String) (user_id : String) (extra : List String) (t : String)
    → let broad = map base_wildcard x_cloud_ids ++ (user_wildcard user_id ∷ []) in
      ((added : List String) × (build_subscribe_topics x_cloud_ids user_id extra ≡ broad ++ added))
      × (contains (build_subscribe_topics x_cloud_ids user_id extra) t
          ≡ (contains broad t || contains extra t))
unfolding build_subscribe_topics
build_subscribe_topics_lem x_cloud_ids user_id extra t =
    let broad = map base_wildcard x_cloud_ids ++ (user_wildcard user_id ∷ []) in
    (add_missing-prefix broad extra, contains-add_missing broad extra t)

-- No filter is subscribed to twice, unless two of the account's cloud ids are the same.
pub is_distinct-build_subscribe_topics :
    (x_cloud_ids : List String) (user_id : String) (extra : List String)
    → is_distinct (map base_wildcard x_cloud_ids ++ (user_wildcard user_id ∷ [])) ≡ true
    → is_distinct (build_subscribe_topics x_cloud_ids user_id extra) ≡ true
unfolding build_subscribe_topics
is_distinct-build_subscribe_topics x_cloud_ids user_id extra h = is_distinct-add_missing _ extra h
