-- ===== src/Versions/Laws.antt =====
-- Which tag is the newest.
use mathlib.Core.List.{Memᴰ}
use telemetry_operator.Base.{
  String, ◌≡◌, refl, Bool, true, false, not, Option, none, some, List, [], ◌∷◌, arith,
}
use telemetry_operator.Base.Predicates.{All, IfSome}
use telemetry_operator.Base.Order.{sort}
use telemetry_operator.Base.Order.Last.{last, last-sort, last-sort_All}
use telemetry_operator.Cluster.{ok}
use telemetry_operator.Versions.{Tags, Item, item_of, items_of, item_le, newest, newest_tag}

-- What coreos/go-semver documents of LessThan: no two versions are each less than the other, and
-- what is not less is ordered.
pub record IsOrder (tags : Tags) : Type 0 where
  pub asym : (v w : tags.Version) → tags.less_than v w ≡ true → tags.less_than w v ≡ false
  pub neg_trans :
      (u v w : tags.Version)
      → tags.less_than v u ≡ false
      → tags.less_than w v ≡ false
      → tags.less_than w u ≡ false

-- A tag of the list that is a version number, than which no other version number is greater.
pub record IsNewest (tags : Tags) (ts : List String) (tag : String) : Type 0 where
  pub version : tags.Version
  pub parsed : tags.parse tag ≡ some version
  pub listed : Memᴰ tag ts
  pub greatest : All (λ t. IfSome (λ v. tags.less_than version v ≡ false) (tags.parse t)) ts

module _ (tags : Tags) where
  Comes : List String → Item tags → Type 0
  Comes ts (v, t) = Memᴰ t ts × (tags.parse t ≡ some v)

  Comes-tail :
      (t : String) (ts : List String) (items : List (Item tags))
      → All (Comes ts) items
      → All (Comes (t ∷ ts)) items
  unfolding Comes
  Comes-tail t ts [] h = tt
  Comes-tail t ts ((v, u) ∷ items) ((m, p), hs) = ((Memᴰ.tail m, p), Comes-tail t ts items hs)

  item_of-Comes :
      (o : Option tags.Version) (t : String) (ts : List String) (items : List (Item tags))
      → tags.parse t ≡ o
      → All (Comes ts) items
      → All (Comes (t ∷ ts)) (item_of tags o t items)
  unfolding Comes
  item_of-Comes none t ts items e h = Comes-tail t ts items h
  item_of-Comes (some v) t ts items e h = ((Memᴰ.head refl, e), Comes-tail t ts items h)

  items_of-Comes : (ts : List String) → All (Comes ts) (items_of tags ts)
  unfolding items_of
  items_of-Comes [] = tt
  items_of-Comes (t ∷ ts) =
      item_of-Comes (tags.parse t) t ts (items_of tags ts) refl (items_of-Comes ts)

  Below : tags.Version → String → Type 0
  Below w t = IfSome (λ v. tags.less_than w v ≡ false) (tags.parse t)

  item_of-Below :
      (w : tags.Version) (o : Option tags.Version) (t : String) (items : List (Item tags))
      → tags.parse t ≡ o
      → All (λ i. tags.less_than w i.0 ≡ false) (item_of tags o t items)
      → Below w t × All (λ i. tags.less_than w i.0 ≡ false) items
  unfolding Below
  item_of-Below w none t items e h = (rw e tt, h)
  item_of-Below w (some u) t items e (h, hs) = (rw e h, hs)

  items_of-Below :
      (w : tags.Version) (ts : List String)
      → All (λ i. tags.less_than w i.0 ≡ false) (items_of tags ts)
      → All (Below w) ts
  unfolding items_of
  items_of-Below w [] h = tt
  items_of-Below w (t ∷ ts) h =
      let (here, there) = item_of-Below w (tags.parse t) t (items_of tags ts) refl h in
      (here, items_of-Below w ts there)

  not-false : (b : Bool) → not b ≡ true → b ≡ false
  not-false b h = ground arith

  not-false-All :
      (w : tags.Version) (items : List (Item tags))
      → All (λ i. not (tags.less_than w i.0) ≡ true) items
      → All (λ i. tags.less_than w i.0 ≡ false) items
  not-false-All w [] h = tt
  not-false-All w (i ∷ items) (h, hs) = (not-false _ h, not-false-All w items hs)

  newest_inv :
      (o : Option (Item tags)) {tag : String}
      → newest tags o ≡ ok tag
      → (v : tags.Version) × (o ≡ some (v, tag))
  newest_inv none e = cc
  newest_inv (some (v, t)) e = (v, cc)

-- The tag that fetchAppVersion returns is one of the registry's, is a version number, and no tag of
-- the registry is a greater one. (LessThan orders the versions.)
pub newest_tag-IsNewest :
    (tags : Tags)
    → IsOrder tags
    → (ts : List String) (tag : String) → newest_tag tags ts ≡ ok tag
    → IsNewest tags ts tag
unfolding newest_tag Comes Below
newest_tag-IsNewest tags order ts tag e =
    let (v, found) = newest_inv tags (last (sort (item_le tags) (items_of tags ts))) e in
    let (listed, parsed) =
      last-sort_All (Comes tags ts) (item_le tags) (items_of tags ts) (v, tag) found
        (items_of-Comes tags ts) in
    record {
      version = v;
      parsed = parsed;
      listed = listed;
      greatest = items_of-Below tags v ts (
          not-false-All tags v (items_of tags ts) (
            last-sort (item_le tags) (λ a b c. ground (arith, order.neg_trans a.0 b.0 c.0))
              (λ a b. ground (arith, order.asym b.0 a.0)) (items_of tags ts) (v, tag) found));
    }
