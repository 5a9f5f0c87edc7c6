-- ===== src/Client/Switches/Heard.antt =====
-- The states that a switch of the library hears of (urf_killswitch_changed_cb of
-- liburfkill-glib/urf-killswitch.c).
use urfkill.Prelude.{
  ◌≡◌, refl, ◌∙◌, ap, true, List, [], ◌∷◌, ◌++◌, ℤ, pos, negsuc, ==_iff, if◌then◌else◌, Bool-cases,
  inl, inr, append-nil, append_assoc, sym,
}
use urfkill.Client.Switches.{Switch, int_eq, urf_killswitch_changed_cb}

-- One signal after the other.
unfoldable pub hear_states : List ℤ → Switch → Switch
unfolding urf_killswitch_changed_cb
hear_states [] k = k
hear_states (v ∷ vs) k = hear_states vs (urf_killswitch_changed_cb v k)

abbrev pub last_of : ℤ → List ℤ → ℤ
last_of old [] = old
last_of old (v ∷ vs) = last_of v vs

-- The values that differ from the one before them, the latest first.
abbrev pub news : ℤ → List ℤ → List ℤ
news old [] = []
news old (v ∷ vs) = news v vs ++ (if int_eq old v then [] else v ∷ [])

-- What the switch is after the values.
pub record Heard (vs : List ℤ) (k k' : Switch) : Type 0 where
  pub state : k'.state ≡ last_of k.state vs
  pub emitted : k'.emitted ≡ news k.state vs ++ k.emitted
  pub kept : record k' { state = k.state; emitted = k.emitted } ≡ k

int_eq-eq : (a b : ℤ) → int_eq a b ≡ true → a ≡ b
int_eq-eq (pos a) (pos b) h = ap pos ((==_iff a b).0 h)
int_eq-eq (negsuc a) (negsuc b) h = ap negsuc ((==_iff a b).0 h)
int_eq-eq (pos a) (negsuc b) h = cc
int_eq-eq (negsuc a) (pos b) h = cc

pub hear_states-Heard : (vs : List ℤ) (k : Switch) → Heard vs k (hear_states vs k)
unfolding hear_states
hear_states-Heard [] k = record { state = refl; emitted = refl; kept = refl }
hear_states-Heard (v ∷ vs) k = elim (Bool-cases (int_eq k.state v)) [
  | inl same ↦
      let e = int_eq-eq k.state v same in
      let r = hear_states-Heard vs k in
      rw (same, hear_states, urf_killswitch_changed_cb)
        (record {
          state = r.state ∙ ap (λ s. last_of s vs) e;
          emitted =
              r.emitted
              ∙ rw same (
                  ap (λ s. news s vs ++ k.emitted) e
                  ∙ ap (λ xs. xs ++ k.emitted) (sym (append-nil (news v vs))));
          kept = r.kept;
        })
  | inr other ↦
      let k1 : Switch = record k { state = v; emitted = v ∷ k.emitted } in
      let r = hear_states-Heard vs k1 in
      rw (other, hear_states, urf_killswitch_changed_cb)
        (record {
          state = r.state;
          emitted = r.emitted ∙ rw other (sym (append_assoc (news v vs) (v ∷ []) k.emitted));
          kept = ap (λ (x : Switch). record x { state = k.state; emitted = k.emitted }) r.kept;
        })
]
