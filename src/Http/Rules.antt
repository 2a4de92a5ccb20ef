-- ===== src/Http/Rules.antt =====
-- What an action of the client sends, raises and leaves behind, one rule for each way to build an action.
use ha_eisenberg.Common.{
  ◌≡◌, refl, sym, ap, ◌∙◌, [], ◌∷◌, ◌++◌, List, Option, none, some, Bool, true, false, append_assoc,
  append-nil, All, if◌then◌else◌,
}
use ha_eisenberg.Http.{
  Error, transient, unreachable, Result, ok, err, Reply, json, not_json, no_reply, next_reply,
  answer, Request, Client, World, Action, pure, raise, or_raise, gets, ◌>>=◌, ◌>>◌, raise_if,
  modify, monotonic, exchange, go_on,
}

All-append : (P : Request → Type 0) (xs ys : List Request) → All P xs → All P ys → All P (xs ++ ys)
All-append P [] ys hx hy = hy
All-append P (x ∷ xs) ys (h, hx) hy = (h, All-append P xs ys hx hy)

-- The log grows by requests of which `P` holds.
abbrev pub Grows : (Request → Type 0) → World → World → Type 0
Grows P w w' = (new : List Request) × (w'.sent ≡ w.sent ++ new) × All P new

Grows-same : (P : Request → Type 0) (w w' : World) → w'.sent ≡ w.sent → Grows P w w'
Grows-same P w w' e = ([], e ∙ sym (append-nil w.sent), tt)

Grows-trans : (P : Request → Type 0) (u v w : World) → Grows P u v → Grows P v w → Grows P u w
Grows-trans P u v w (xs, ex, hx) (ys, ey, hy) = (
  xs ++ ys,
  ey ∙ ap (λ (l : List Request). l ++ ys) ex ∙ append_assoc u.sent xs ys,
  All-append P xs ys hx hy,
)

abbrev pub IsRaised : {A : Type 0} → (Error → Type 0) → Result A → Type 0
IsRaised E (ok a) = Unit
IsRaised E (err e) = E e

-- All that `m` sends is of `P`, and all that it raises of `E`.
pub record Does {A : Type 0} (P : Request → Type 0) (E : Error → Type 0) (m : Action A)
    : Type 0 where
  pub at : (w : World) → Grows P w (m w).1 × IsRaised E (m w).0

answered :
    (E : Error → Type 0) (o : Option Reply) → E transient → E unreachable → IsRaised E (answer o)
answered E none ht hu = hu
answered E (some no_reply) ht hu = hu
answered E (some not_json) ht hu = ht
answered E (some (json j)) ht hu = tt

module _ {P : Request → Type 0} {E : Error → Type 0} where
  pub Does-raise_if : (c : Bool) (e : Error) → E e → Does P E (raise_if c e)
  unfolding raise_if
  Does-raise_if true e h = record { at = λ w. (Grows-same P w w refl, h) }
  Does-raise_if false e h = record { at = λ w. (Grows-same P w w refl, tt) }

  pub Does-modify : (f : Client → Client) → Does P E (modify f)
  unfolding modify
  Does-modify f = record { at = λ w. (Grows-same P w (modify f w).1 refl, tt) }

  pub Does-monotonic : Does P E monotonic
  unfolding monotonic
  Does-monotonic = record { at = λ w. (Grows-same P w w refl, tt) }

  pub Does-exchange : (r : Request) → P r → E transient → E unreachable → Does P E (exchange r)
  unfolding exchange
  Does-exchange r p ht hu = record {
    at = λ w. ((r ∷ [], refl, (p, tt)), answered E (next_reply w.replies) ht hu);
  }

module _ {A : Type 0} {P : Request → Type 0} {E : Error → Type 0} where
  pub Does-pure : (a : A) → Does P E (pure a)
  unfolding pure
  Does-pure a = record { at = λ w. (Grows-same P w w refl, tt) }

  pub Does-raise : (e : Error) → E e → Does P E (raise {A = A} e)
  unfolding raise
  Does-raise e h = record { at = λ w. (Grows-same P w w refl, h) }

  pub Does-or_raise : (o : Option A) (e : Error) → E e → Does P E (or_raise o e)
  unfolding or_raise
  Does-or_raise none e h = record { at = λ w. (Grows-same P w w refl, h) }
  Does-or_raise (some a) e h = record { at = λ w. (Grows-same P w w refl, tt) }

  pub Does-gets : (f : Client → A) → Does P E (gets f)
  unfolding gets
  Does-gets f = record { at = λ w. (Grows-same P w w refl, tt) }

  pub Does-if :
      (c : Bool) (m n : Action A) → Does P E m → Does P E n → Does P E (if c then m else n)
  Does-if true m n hm hn = hm
  Does-if false m n hm hn = hn

module _ {A B : Type 0} {P : Request → Type 0} {E : Error → Type 0} where
  Does-go_on :
      (f : A → Action B) (w : World) (r : Result A) (v : World)
      → Grows P w v × IsRaised E r
      → ((a : A) → Does P E (f a))
      → Grows P w (go_on f (r, v)).1 × IsRaised E (go_on f (r, v)).0
  Does-go_on f w (ok a) v (h, _) hf =
      let (g, e) = (hf a).at v in (Grows-trans P w v (f a v).1 h g, e)
  Does-go_on f w (err e) v h hf = h

  pub Does-bind :
      (m : Action A) (f : A → Action B)
      → Does P E m
      → ((a : A) → Does P E (f a))
      → Does P E (m >>= f)
  unfolding ◌>>=◌
  Does-bind m f hm hf = record { at = λ w. Does-go_on f w (m w).0 (m w).1 (hm.at w) hf }

pub ruleset does_rules = (
  Does-pure, Does-raise, Does-or_raise, Does-gets, Does-raise_if, Does-modify, Does-monotonic,
  Does-exchange, Does-if, Does-bind,
)

abbrev pub IsReturned : {A : Type 0} → (World → Type 0) → Result A × World → Type 0
IsReturned Q (ok a, w) = Q w
IsReturned Q (err e, w) = Unit

-- `Q` holds of the world when `m` does not raise.
pub record Returns {A : Type 0} (Q : World → Type 0) (m : Action A) : Type 0 where
  pub at : (w : World) → IsReturned Q (m w)

module _ {A : Type 0} {Q : World → Type 0} where
  pub Returns-raise : (e : Error) → Returns Q (raise {A = A} e)
  unfolding raise
  Returns-raise e = record { at = λ w. tt }

  pub Returns-if :
      (c : Bool) (m n : Action A) → Returns Q m → Returns Q n → Returns Q (if c then m else n)
  Returns-if true m n hm hn = hm
  Returns-if false m n hm hn = hn

module _ {A B : Type 0} {Q : World → Type 0} where
  Returns-go_on :
      (f : A → Action B) (r : Result A) (v : World)
      → ((a : A) → Returns Q (f a))
      → IsReturned Q (go_on f (r, v))
  Returns-go_on f (ok a) v hf = (hf a).at v
  Returns-go_on f (err e) v hf = tt

  -- Only the last action of a chain counts.
  pub Returns-bind :
      (m : Action A) (f : A → Action B) → ((a : A) → Returns Q (f a)) → Returns Q (m >>= f)
  unfolding ◌>>=◌
  Returns-bind m f hf = record { at = λ w. Returns-go_on f (m w).0 (m w).1 hf }

pub ruleset returns_rules = (Returns-raise, Returns-if, Returns-bind)

abbrev pub IsGiven : {A : Type 0} → (A → Type 0) → Result A → Type 0
IsGiven R (ok a) = R a
IsGiven R (err e) = Unit

-- `R` holds of what `m` returns.
pub record Gives {A : Type 0} (R : A → Type 0) (m : Action A) : Type 0 where
  pub at : (w : World) → IsGiven R (m w).0

module _ {A : Type 0} {R : A → Type 0} where
  pub Gives-or_raise :
      (o : Option A) (e : Error) → ((a : A) → o ≡ some a → R a) → Gives R (or_raise o e)
  unfolding or_raise
  Gives-or_raise none e h = record { at = λ w. tt }
  Gives-or_raise (some a) e h = record { at = λ w. h a refl }

  -- A guard before the result.
  pub Gives-raise_if :
      (c : Bool) (e : Error) (a : A) → (c ≡ false → R a) → Gives R (raise_if c e >> pure a)
  unfolding ◌>>=◌
  Gives-raise_if true e a h = record { at = λ w. tt }
  Gives-raise_if false e a h = record { at = λ w. h refl }

module _ {A B : Type 0} {R : B → Type 0} where
  Gives-go_on :
      (f : A → Action B) (r : Result A) (v : World)
      → ((a : A) → Gives R (f a))
      → IsGiven R (go_on f (r, v)).0
  Gives-go_on f (ok a) v hf = (hf a).at v
  Gives-go_on f (err e) v hf = tt

  pub Gives-bind : (m : Action A) (f : A → Action B) → ((a : A) → Gives R (f a)) → Gives R (m >>= f)
  unfolding ◌>>=◌
  Gives-bind m f hf = record { at = λ w. Gives-go_on f (m w).0 (m w).1 hf }

module _ {A B : Type 0} {R : A → Type 0} {P : Request → Type 0} {E : Error → Type 0} where
  given_on :
      (f : A → Action B) (w : World) (r : Result A) (v : World)
      → Grows P w v × IsRaised E r
      → IsGiven R r
      → ((a : A) → R a → Does P E (f a))
      → Grows P w (go_on f (r, v)).1 × IsRaised E (go_on f (r, v)).0
  given_on f w (ok a) v (h, _) given hf =
      let (g, e) = (hf a given).at v in (Grows-trans P w v (f a v).1 h g, e)
  given_on f w (err e) v h given hf = h

  -- The rest of a chain may use what its first action gives.
  pub Does-bind-Gives :
      (m : Action A) (f : A → Action B)
      → Does P E m
      → Gives R m
      → ((a : A) → R a → Does P E (f a))
      → Does P E (m >>= f)
  unfolding ◌>>=◌
  Does-bind-Gives m f hm given hf = record {
    at = λ w. given_on f w (m w).0 (m w).1 (hm.at w) (given.at w) hf;
  }
