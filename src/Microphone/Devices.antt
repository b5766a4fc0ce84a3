-- ===== src/Microphone/Devices.antt =====
-- What normalizeMicrophoneDevices of cloudflare/public/microphone-selection.js keeps.
use non_stop_talk.Prelude.{
  ℕ, ◌+◌, ◌≡◌, ◌≢◌, ◌≤◌, ap, true, false, ◌||◌, List, [], ◌∷◌, ◌++◌, Option, none, some, ltb, leb,
  length, length-take, length-append, arith, All, All-append, All-imp, inl, inr, Bool-cases,
  Option-cases,
}
use non_stop_talk.Text.{Text}
use non_stop_talk.Text.Laws.{same_text_refl}
use non_stop_talk.Js.{Js, str}
use non_stop_talk.Room.{contains_text}
use non_stop_talk.Microphone.{
  Device, Candidate, unreadable, entry, is_device_id, normalize_device_id, candidate_label,
  accepted, collect_devices, normalize_devices, max_device_count, max_label_code_points,
  max_device_scan_count,
}

abbrev pub IsDevice : Device → Type 0
IsDevice d = (is_device_id d.device_id ≡ true) × (length d.label ≤ max_label_code_points)

abbrev pub IdsDiffer : List Device → Type 0
IdsDiffer [] = Unit
IdsDiffer (d ∷ ds) = All (λ (e : Device). e.device_id ≢ d.device_id) ds × IdsDiffer ds

abbrev pub IsDeviceList : List Device → Type 0
IsDeviceList ds = All IsDevice ds × IdsDiffer ds × (length ds ≤ max_device_count)

abbrev Seen : List Text → List Device → Type 0
Seen seen ds = All (λ (d : Device). contains_text d.device_id seen ≡ true) ds

IdsDiffer-push :
    (ds : List Device) (d : Device)
    → IdsDiffer ds
    → All (λ (e : Device). d.device_id ≢ e.device_id) ds
    → IdsDiffer (ds ++ d ∷ [])
IdsDiffer-push [] d h f = (tt, tt)
IdsDiffer-push (e ∷ es) d h f =
    (All-append _ es (d ∷ []) h.0 (f.0, tt), IdsDiffer-push es d h.1 f.1)

fresh_id :
    (seen : List Text) (d : Device) (ds : List Device)
    → contains_text d.device_id seen ≡ false
    → Seen seen ds
    → All (λ (e : Device). d.device_id ≢ e.device_id) ds
fresh_id seen d ds h =
    All-imp _ _ ds λ e there same. cc (h, there, ap (λ i. contains_text i seen) same)

normalize_lem :
    (v : Js) (id : Text) → normalize_device_id false v ≡ some id → is_device_id id ≡ true
unfolding normalize_device_id
normalize_lem (str s) id h = ground arith
normalize_lem _ id h = absurd (ground arith)

label_fits : (v : Js) → length (candidate_label v) ≤ max_label_code_points
unfolding candidate_label
label_fits (str s) = omega (arith, length-take {0} max_label_code_points _)
label_fits _ = omega arith

accepted-IsDevice : (c : Candidate) (d : Device) → accepted c ≡ some d → IsDevice d
unfolding accepted
accepted-IsDevice unreadable d h = absurd (ground arith)
accepted-IsDevice (entry kind id label) d h = elim (Option-cases (normalize_device_id false id)) [
  | inl e ↦ absurd (ground (arith, e))
  | inr (s, e) ↦ ground (arith, e, h, normalize_lem id s e, label_fits label)
]

collect-IsDeviceList :
    (inspected : ℕ) (devices : List Device) (seen : List Text) (cs : List Candidate)
    → IsDeviceList devices
    → Seen seen devices
    → IsDeviceList (collect_devices inspected devices seen cs)
unfolding collect_devices
collect-IsDeviceList inspected devices seen [] h s = h
collect-IsDeviceList inspected devices seen (c ∷ cs) h s =
    elim (Bool-cases
      (ltb max_device_scan_count (inspected + 1) || leb max_device_count (length devices))) [
        | inl stop ↦ rw stop h
        | inr go ↦ elim (Option-cases (accepted c)) [
          | inl skip ↦ rw (go, skip) (collect-IsDeviceList (inspected + 1) devices seen cs h s)
          | inr (d, e) ↦ elim (Bool-cases (contains_text d.device_id seen)) [
            | inl old ↦ rw (go, e, old) (collect-IsDeviceList (inspected + 1) devices seen cs h s)
            | inr new ↦
                rw (go, e, new)
                  (collect-IsDeviceList (inspected + 1) (devices ++ d ∷ []) (d.device_id ∷ seen) cs
                    (
                      All-append _ devices (d ∷ []) h.0 (accepted-IsDevice c d e, tt),
                      IdsDiffer-push devices d h.1 (fresh_id seen d devices new s),
                      ground (arith, go, length-append devices (d ∷ [])),
                    )
                    (All-append _ devices (d ∷ [])
                      (All-imp _ _ devices (λ k there. ground (arith, there)) s)
                      (ground (arith, same_text_refl d.device_id), tt)))
          ]
        ]
      ]

-- Whatever the browser lists, what is kept are at most 64 devices of different, valid ids, with
-- labels of at most 120 code points.
pub normalize_devices-IsDeviceList :
    (listed : Option (List Candidate)) → IsDeviceList (normalize_devices listed)
unfolding normalize_devices
normalize_devices-IsDeviceList none = (tt, tt, omega arith)
normalize_devices-IsDeviceList (some cs) = collect-IsDeviceList 0 [] [] cs (tt, tt, omega arith) tt
