-- ===== src/Device/Modem.antt =====
-- What the signals of oFono do to a modem (src/urf-device-ofono.c).
use urfkill.Prelude.{
  ◌≡◌, ◌≢◌, refl, ◌∙◌, sym, Bool, true, false, not, some, String, List, [], ◌∷◌, ◌&&◌, str_eq,
  arith, if◌then◌else◌, Bool-cases, inl, inr, eq_iff, str_eq-ne, eq_refl,
}
use urfkill.Store.{Variant, OfonoDevice, Output, set_online}
use urfkill.Device.Ofono.{
  lookup, replace, get_boolean, set_soft, modem_signal_cb, get_properties_cb,
}

lookup-replace_self :
    (k : String) (v : Variant) (m : List (String × Variant)) → lookup k (replace k v m) ≡ some v
unfolding lookup replace
lookup-replace_self k v [] = rw (eq_refl k) refl
lookup-replace_self k v ((j, w) ∷ m) = elim (Bool-cases (str_eq j k)) [
  | inl e ↦ rw (e, lookup) (rw e refl)
  | inr e ↦ rw (e, lookup) (rw e (lookup-replace_self k v m))
]

lookup-replace_other :
    (k i : String) (v : Variant) (m : List (String × Variant))
    → k ≢ i
    → lookup i (replace k v m) ≡ lookup i m
unfolding lookup replace
lookup-replace_other k i v [] n = rw (str_eq-ne k i n) refl
lookup-replace_other k i v ((j, w) ∷ m) n = elim (Bool-cases (str_eq j k)) [
  | inl e ↦
      let apart : str_eq j i ≡ false = str_eq-ne j i (λ same. n (sym ((eq_iff j k).0 e) ∙ same)) in
      ground arith
  | inr e ↦ ground (arith, lookup-replace_other k i v m n)
]

-- What a property of a modem asks for: the state last wanted, once the modem is powered.
pub online_calls :
    (proxy : Bool) (object_path : String) (soft : Bool)
    → List (String × Variant)
    → List Output
    → List Output
online_calls proxy path soft [] out = out
online_calls proxy path soft ((key, value) ∷ rest) out = online_calls proxy path soft rest (
    if str_eq "Powered" key && get_boolean value
    then if proxy then set_online path (not soft) ∷ out else out
    else out)

-- After a signal that a property of a modem has changed, the property has the value of the signal,
-- every other property has its old value, the wanted block is as it was, and the daemon has put
-- out the call that sets this block if the signal tells that the modem is powered and the proxy is
-- there.
pub modem_signal_cb_lem :
    (d : OfonoDevice) (name : String) (value : Variant) (out : List Output)
    → let (d', out') = modem_signal_cb d name value out in
      (lookup name d'.properties ≡ some value)
      × ((key : String) → name ≢ key → lookup key d'.properties ≡ lookup key d.properties)
      × (d'.soft ≡ d.soft)
      × (out' ≡ online_calls d.proxy d.object_path d.soft ((name, value) ∷ []) out)
unfolding modem_signal_cb set_soft online_calls
modem_signal_cb_lem d name value out = (
  ground (arith, lookup-replace_self name value d.properties),
  (λ key n. ground (arith, lookup-replace_other name key value d.properties n)),
  ground arith,
  ground arith,
)

-- The properties that oFono returns leave the wanted block of a modem as it is, and the daemon
-- puts out one call that sets the modem online or offline, as that block says, for each property
-- that tells that the modem is powered, if the proxy is there, and nothing else.
pub get_properties_cb_lem :
    (d : OfonoDevice) (props : List (String × Variant)) (out : List Output)
    → ((get_properties_cb d props out).0.soft ≡ d.soft)
      × ((get_properties_cb d props out).1 ≡ online_calls d.proxy d.object_path d.soft props out)
unfolding get_properties_cb set_soft online_calls
get_properties_cb_lem d [] out = (refl, refl)
get_properties_cb_lem d ((key, value) ∷ rest) out =
    step (get_properties_cb_lem (record d { properties = replace key value d.properties }) rest)
      (str_eq "Powered" key && get_boolean value)
  where
    Result : OfonoDevice → List Output → Type 0
    Result e sent =
        ((get_properties_cb e rest sent).0.soft ≡ d.soft)
        × ((get_properties_cb e rest sent).1 ≡ online_calls d.proxy d.object_path d.soft rest sent)

    step :
        ((sent : List Output)
          → Result (record d { properties = replace key value d.properties }) sent)
        → (on : Bool)
        → let (_, powered, sent) = set_soft d d.soft out in
          let e : OfonoDevice = if on then powered else d in
          Result
            (record e { properties = replace key value e.properties })
            (if on then sent else out)
    step h true = h (if d.proxy then set_online d.object_path (not d.soft) ∷ out else out)
    step h false = h out
