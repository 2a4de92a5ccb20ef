-- ===== src/Camera/Source.antt =====
-- custom_components/eisenberg/camera.py: asking twice for the source.
use mathlib.Core.Path.{subst}
use ha_eisenberg.Common.{
  ℕ, ◌+◌, ◌-◌, ◌<◌, ltb, ◌≡◌, refl, sym, ap, ◌∙◌, Option, none, some, String, Bool, true, false,
  Bool-cases, inl, inr, if◌then◌else◌, arith, lt→ltb,
}
use ha_eisenberg.Json.{Json}
use ha_eisenberg.Http.{World, Action}
use ha_eisenberg.Session.{Standing, returned, auth_failed, raised, Call}
use ha_eisenberg.Camera.{
  Camera, Asker, with_transport, probe_url, secured, fresh_url, fetched, Source, source_of,
  stream_source,
}

-- The URL that is noted after a source was given is the one that was given.
abbrev IsNoted : Asker → Source → Type 0
IsNoted p ((none, d), rest) = Unit
IsNoted p ((some url, d), rest) =
    (minted : ℕ) × ((u : String) × ((d.last_url ≡ some (minted, u)) × (url ≡ with_transport p u)))

fetched-IsNoted : (c : Camera) (p : Asker) (r : Call String) → IsNoted p (fetched c p r)
unfolding fetched
fetched-IsNoted c p (returned url, (s, w)) = (w.clock, (secured url, (refl, refl)))
fetched-IsNoted c p (auth_failed, rest) = tt
fetched-IsNoted c p (raised e, rest) = tt

module _ (validate_stream : Json → Option String) where
  source_of-IsNoted :
      (c : Camera) (p : Asker) (relogin : Action (Unit {0})) (s : Standing) (w : World)
      (last : Option (ℕ × String))
      → c.last_url ≡ last
      → IsNoted p (source_of validate_stream c p relogin s w (fresh_url last w.clock))
  source_of-IsNoted c p relogin s w none e = fetched-IsNoted c p _
  source_of-IsNoted c p relogin s w (some (minted, u)) e =
      elim (Bool-cases (ltb (w.clock - minted) 10)) [
        | inl h ↦ rw h (minted, (u, (e, refl)))
        | inr h ↦ rw h (fetched-IsNoted c p _)
      ]

  abbrev source_if : Bool → Camera → Asker → Action (Unit {0}) → Standing → World → Source
  source_if b c p relogin s w =
      if b
      then ((some (with_transport p probe_url), c), (s, w))
      else source_of validate_stream c p relogin s w (fresh_url c.last_url w.clock)

  again :
      (b : Bool) (c d : Camera) (p : Asker) (relogin : Action (Unit {0})) (s : Standing) (w : World)
      (url : String) (rest : Standing × World)
      → source_if b c p relogin s w ≡ ((some url, d), rest)
      → (later : Standing) (v : World) (minted : ℕ) (u : String) → d.last_url ≡ some (minted, u)
      → v.clock < minted + 10
      → source_if b d p relogin later v ≡ ((some url, d), (later, v))
  again true c d p relogin s w url rest h later v minted u e lt =
      ap (λ (o : Option String). ((o, d), (later, v))) (ap (λ (x : Source). x.0.0) h)
  again false c d p relogin s w url rest h later v minted u e lt =
      let (m, (u', (e', q))) =
        subst (IsNoted p) h (source_of-IsNoted c p relogin s w c.last_url refl) in
      let same : u ≡ u' = cc in
      let young : ltb (v.clock - minted) 10 ≡ true = lt→ltb _ _ (omega arith) in
      ap
        (λ (o : Option (ℕ × String)).
          source_of validate_stream d p relogin later v (fresh_url o v.clock))
        e
      ∙ rw young
          (ap (λ (t : String). ((some t, d), (later, v))) (ap (with_transport p) same ∙ sym q))

  -- A source that was given is given again, word for word, to the same asker until ten seconds after its URL
  -- was minted: nothing is sent to Arlo, no login is tried, and the camera is left as it is.
  pub stream_source-again :
      (c d : Camera) (p : Asker) (relogin : Action (Unit {0})) (s : Standing) (w : World)
      (url : String) (rest : Standing × World)
      → stream_source validate_stream c p relogin s w ≡ ((some url, d), rest)
      → (later : Standing) (v : World) (minted : ℕ) (u : String) → d.last_url ≡ some (minted, u)
      → v.clock < minted + 10
      → stream_source validate_stream d p relogin later v ≡ ((some url, d), (later, v))
  unfolding stream_source
  stream_source-again c d p relogin s w url rest h later v minted u e lt =
      again p.is_probing c d p relogin s w url rest h later v minted u e lt
