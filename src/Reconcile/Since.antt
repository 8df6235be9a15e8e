-- ===== src/Reconcile/Since.antt =====
-- What holds of each request of a run, given the requests made before it.
use mathlib.Core.Path.{subst}
use mathlib.Core.List.{Memᴰ, ◌++◌ as append}
use telemetry_operator.Base.{◌≡◌, refl, ap, true, List, [], ◌∷◌, map}
use telemetry_operator.Kube.{Kube}
use telemetry_operator.Cluster.{Request, History}
use telemetry_operator.Validate.{Outcome, returned, panicked}
use telemetry_operator.Validate.Returns.{did_return}
use telemetry_operator.Reconcile.Calls.{Calls, ask, issue, then_issue}

-- A relation of a request to the requests before it, the latest first.
abbrev pub Relation : Kube → Type 1
Relation K = Request K → History K → Type 0

module _ {K : Kube} (R : Relation K) (base : History K) where
  -- Each of the requests is related to those before it, the base among them.
  unfoldable pub Linked : List (Request K) → Type 0
  Linked [] = Unit
  Linked (r ∷ l) = R r (append l base) × Linked l

  -- The history is the base and linked requests made since.
  abbrev pub Since : History K → Type 0
  Since h = (l : List (Request K)) × (h ≡ append l base) × Linked l

  pub Since-base : Since base
  unfolding Linked
  Since-base = ([], refl, tt)

  pub Since-cons : (r : Request K) (h : History K) → R r h → Since h → Since (r ∷ h)
  unfolding Linked
  Since-cons r h x (l, e, linked) = (r ∷ l, ap (λ t. r ∷ t) e, (subst (R r) e x, linked))

module _ {K : Kube} (R : Relation K) where
  -- The same of requests that are still to be made.
  unfoldable pub Fits : List (Request K) → History K → Type 0
  Fits [] h = Unit
  Fits (r ∷ rs) h = R r h × Fits rs (r ∷ h)

  -- The same of calls, up to a panic.
  unfoldable pub Safe : Calls K → History K → Type 0
  unfolding Fits
  Safe [] h = Unit
  Safe (panicked ∷ calls) h = Unit
  Safe (returned rs ∷ calls) h = Fits rs h × Safe calls (ask rs h)

  pub ask-Since :
      (base : History K) (rs : List (Request K)) (h : History K)
      → Fits rs h
      → Since R base h
      → Since R base (ask rs h)
  unfolding Fits
  ask-Since base [] h f s = s
  ask-Since base (r ∷ rs) h (x, f) s = ask-Since base rs (r ∷ h) f (Since-cons R base r h x s)

  pub issue-Since :
      (base : History K) (calls : Calls K) (h : History K)
      → Safe calls h
      → Since R base h
      → Since R base (issue calls h).1
  unfolding issue Safe
  issue-Since base [] h f s = s
  issue-Since base (panicked ∷ calls) h f s = s
  issue-Since base (returned rs ∷ calls) h (f, g) s =
      issue-Since base calls (ask rs h) g (ask-Since base rs h f s)

-- Every request of the one history is in the other.
abbrev pub Extends : {K : Kube} → History K → History K → Type 0
Extends {K} h h' = (r : Request K) → Memᴰ r h → Memᴰ r h'

pub ask-Extends : {K : Kube} (rs : List (Request K)) (h : History K) → Extends h (ask rs h)
ask-Extends [] h r m = m
ask-Extends (q ∷ rs) h r m = ask-Extends rs (q ∷ h) r (Memᴰ.tail m)

pub ask-Memᴰ :
    {K : Kube} (rs : List (Request K)) (h : History K) (r : Request K)
    → Memᴰ r rs
    → Memᴰ r (ask rs h)
ask-Memᴰ [] h r m = elim m [ ]
ask-Memᴰ (q ∷ rs) h r (Memᴰ.head e) = ask-Extends rs (q ∷ h) r (Memᴰ.head e)
ask-Memᴰ (q ∷ rs) h r (Memᴰ.tail m) = ask-Memᴰ rs (q ∷ h) r m

pub issue-Extends : {K : Kube} (calls : Calls K) (h : History K) → Extends h (issue calls h).1
unfolding issue
issue-Extends [] h r m = m
issue-Extends (panicked ∷ calls) h r m = m
issue-Extends (returned rs ∷ calls) h r m = issue-Extends calls (ask rs h) r (ask-Extends rs h r m)

module _ {K : Kube} (R : Relation K) where
  pub Safe-append :
      (a b : Calls K) (h : History K) → Safe R a h → Safe R b (issue a h).1 → Safe R (append a b) h
  unfolding Safe issue
  Safe-append [] b h f g = g
  Safe-append (panicked ∷ a) b h f g = tt
  Safe-append (returned rs ∷ a) b h (f, f') g = (f, Safe-append a b (ask rs h) f' g)

  -- One request for each element of a list.
  pub Safe-map :
      {A : Type 0} (f : A → Request K) (l : List A) (h : History K)
      → ((a : A) → Memᴰ a l → (h' : History K) → Extends h h' → R (f a) h')
      → Safe R (map (λ a. returned (f a ∷ [])) l) h
  unfolding Safe Fits
  Safe-map f [] h x = tt
  Safe-map f (a ∷ l) h x = (
    (x a (Memᴰ.head refl) h (λ r m. m), tt),
    Safe-map f l (f a ∷ h) (λ b n h' y. x b (Memᴰ.tail n) h' (λ r m. y r (Memᴰ.tail m))),
  )

-- All of these requests are made.
pub issue-Memᴰ :
    {K : Kube} {A : Type 0} (f : A → Request K) (l : List A) (h : History K) (a : A)
    → Memᴰ a l
    → Memᴰ (f a) (issue (map (λ x. returned (f x ∷ [])) l) h).1
unfolding issue
issue-Memᴰ f [] h a m = elim m [ ]
issue-Memᴰ f (b ∷ l) h a (Memᴰ.head e) =
    issue-Extends (map (λ x. returned (f x ∷ [])) l) (f b ∷ h) (f a) (Memᴰ.head (ap f e))
issue-Memᴰ f (b ∷ l) h a (Memᴰ.tail m) = issue-Memᴰ f l (f b ∷ h) a m

-- Where no call has panicked, all requests of all calls are made.
pub issue-all :
    {K : Kube} (calls : Calls K) (h : History K) (rs : List (Request K)) (r : Request K)
    → Memᴰ (returned rs) calls
    → Memᴰ r rs
    → did_return (issue calls h).0 ≡ true
    → Memᴰ r (issue calls h).1
unfolding issue
issue-all [] h rs r m n d = elim m [ ]
issue-all (panicked ∷ calls) h rs r m n d = cc
issue-all (returned qs ∷ calls) h rs r (Memᴰ.head e) n d =
    let same : rs ≡ qs = cc in
    issue-Extends calls (ask qs h) r (ask-Memᴰ qs h r (subst (Memᴰ r) same n))
issue-all (returned qs ∷ calls) h rs r (Memᴰ.tail m) n d = issue-all calls (ask qs h) rs r m n d

pub then_issue-Since :
    {K : Kube} (R : Relation K) (base : History K) (out : Outcome (Unit {0}) × History K)
    (calls : Calls K)
    → Since R base out.1
    → (did_return out.0 ≡ true → Safe R calls out.1)
    → Since R base (then_issue out calls).1
then_issue-Since R base (panicked, h) calls s f = s
then_issue-Since R base (returned done, h) calls s f = issue-Since R base calls h (f refl) s

pub then_issue-Extends :
    {K : Kube} (out : Outcome (Unit {0}) × History K) (calls : Calls K)
    → Extends out.1 (then_issue out calls).1
then_issue-Extends (panicked, h) calls r m = m
then_issue-Extends (returned done, h) calls r m = issue-Extends calls h r m

pub then_issue-all :
    {K : Kube} (out : Outcome (Unit {0}) × History K) (calls : Calls K) (rs : List (Request K))
    (r : Request K)
    → Memᴰ (returned rs) calls
    → Memᴰ r rs
    → did_return (then_issue out calls).0 ≡ true
    → Memᴰ r (then_issue out calls).1
then_issue-all (panicked, h) calls rs r m n d = cc
then_issue-all (returned done, h) calls rs r m n d = issue-all calls h rs r m n d
