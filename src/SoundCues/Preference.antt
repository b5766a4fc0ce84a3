-- ===== src/SoundCues/Preference.antt =====
-- The stored preference of cloudflare/public/sound-cues.js, with its older key.
use non_stop_talk.Prelude.{
  ◌≡◌, refl, ap, sym, ◌∙◌, if◌then◌else◌, Bool, true, false, not, some, arith,
}
use non_stop_talk.Text.{same_text}
use non_stop_talk.Js.{Js, null, bool, str}
use non_stop_talk.SoundCues.{
  Player, Storage, release, apply_enabled, reload, reload_current, reload_legacy, set_enabled,
  is_off, off, drop_legacy, cleared, persist_preference,
}

-- What the two entries mean: the newer one counts, if it is there, and only the text off disables.
unfoldable pub preference : Js → Js → Bool
preference null legacy = not (is_off legacy)
preference current legacy = not (is_off current)

pub record Works (storage : Storage) : Type 0 where
  pub there : storage.available ≡ true
  pub reads : storage.get_throws ≡ false
  pub reads_legacy : storage.get_legacy_throws ≡ false
  pub writes : storage.set_throws ≡ false
  pub removes : storage.remove_throws ≡ false

-- What a reload leaves in a storage that works: the older entry is gone, and the newer one is there,
-- as off, exactly if the preference is to be silent.
abbrev pub stored_as : Bool → Storage → Storage
stored_as true storage = cleared storage
stored_as false storage = record storage { current = off; legacy = null }

apply_enabled_lem : (b : Bool) (p : Player) → (apply_enabled b p).enabled ≡ b
unfolding apply_enabled release
apply_enabled_lem true p = refl
apply_enabled_lem false p = refl

persist_lem :
    (b : Bool) (storage : Storage)
    → Works storage
    → persist_preference storage b ≡ (true, stored_as b storage)
unfolding persist_preference
persist_lem true storage w = ground (arith, w.there, w.removes)
persist_lem false storage w = ground (arith, w.there, w.removes, w.writes)

-- A storage that a reload leaves as it is, with the preference that it holds.
abbrev Settled : Bool → Storage → Type 0
Settled true storage = Works storage × (storage.legacy ≡ null) × (storage.current ≡ null)
Settled false storage = Works storage × (storage.legacy ≡ null) × (is_off storage.current ≡ true)

-- A player that holds a preference, with a settled storage.
abbrev Holds : Bool → Player × Storage → Type 0
Holds b x = (x.0.enabled ≡ b) × Settled b x.1

Works-entries :
    (storage : Storage) (current legacy : Js)
    → Works storage
    → Works (record storage { current = current; legacy = legacy })
Works-entries storage current legacy w = record {
  there = w.there;
  reads = w.reads;
  reads_legacy = w.reads_legacy;
  writes = w.writes;
  removes = w.removes;
}

stored-Settled : (b : Bool) (storage : Storage) → Works storage → Settled b (stored_as b storage)
unfolding same_text
stored-Settled true storage w = (Works-entries storage null null w, refl, refl)
stored-Settled false storage w = (Works-entries storage off null w, refl, refl)

stored_again :
    (b : Bool) (p : Player) (storage : Storage)
    → Works storage
    → Holds b (apply_enabled b p, (persist_preference storage b).1)
stored_again b p storage w =
    rw (persist_lem b storage w) (apply_enabled_lem b p, stored-Settled b storage w)

legacy-Holds :
    (v : Js) (p : Player) (storage : Storage)
    → storage.current ≡ null
    → storage.legacy ≡ v
    → Works storage
    → Holds (not (is_off v)) (reload_legacy v p storage)
legacy-Holds null p storage c l w = (apply_enabled_lem true p, (w, l, c))
legacy-Holds v p storage c l w = stored_again (not (is_off v)) p storage w

drop_legacy_lem :
    (storage : Storage)
    → storage.remove_throws ≡ false
    → drop_legacy storage ≡ record storage { legacy = null }
drop_legacy_lem storage h = ground (arith, h)

off-Holds :
    (p : Player) (storage : Storage)
    → is_off storage.current ≡ true
    → Works storage
    → Holds false (apply_enabled false p, drop_legacy storage)
off-Holds p storage c w =
    rw (drop_legacy_lem storage w.removes)
      (apply_enabled_lem false p, (Works-entries storage storage.current null w, refl, c))

known-Holds :
    (v : Js) (b : Bool) (p : Player) (storage : Storage)
    → storage.current ≡ v
    → is_off v ≡ b
    → Works storage
    → Holds (not b) (
        if b
        then (apply_enabled false p, drop_legacy storage)
        else (apply_enabled true p, (persist_preference storage true).1))
known-Holds v true p storage c e w = off-Holds p storage (ap is_off c ∙ e) w
known-Holds v false p storage c e w = stored_again true p storage w

null_lem :
    (p : Player) (storage : Storage)
    → storage.get_legacy_throws ≡ false
    → reload_current null p storage ≡ reload_legacy storage.legacy p storage
null_lem p storage h = ground (arith, h)

current-Holds :
    (v : Js) (p : Player) (storage : Storage)
    → storage.current ≡ v
    → Works storage
    → Holds (preference v storage.legacy) (reload_current v p storage)
unfolding preference
current-Holds null p storage c w =
    rw (null_lem p storage w.reads_legacy) (legacy-Holds storage.legacy p storage c refl w)
current-Holds v p storage c w = known-Holds v (is_off v) p storage c refl w

reload_current_lem :
    (p : Player) (storage : Storage)
    → Works storage
    → reload p storage ≡ reload_current storage.current p storage
unfolding reload
reload_current_lem p storage w = ground (arith, w.there, w.reads)

reload-Holds :
    (p : Player) (storage : Storage)
    → Works storage
    → Holds (preference storage.current storage.legacy) (reload p storage)
reload-Holds p storage w =
    rw (reload_current_lem p storage w) (current-Holds storage.current p storage refl w)

off_lem :
    (v : Js) (p : Player) (storage : Storage)
    → is_off v ≡ true
    → reload_current v p storage ≡ (apply_enabled false p, drop_legacy storage)
off_lem null p storage h = absurd (ground (arith, h))
off_lem (str s) p storage h = ground (arith, h)
off_lem _ p storage h = absurd (ground (arith, h))

-- A settled storage is left alone.
Settled-kept :
    (b : Bool) (p : Player) (storage : Storage)
    → Settled b storage
    → reload p storage ≡ (apply_enabled b p, storage)
Settled-kept true p storage (w, l, c) =
    reload_current_lem p storage w
    ∙ ap (λ v. reload_current v p storage) c
    ∙ null_lem p storage w.reads_legacy
    ∙ ap (λ v. reload_legacy v p storage) l
Settled-kept false p storage (w, l, c) =
    reload_current_lem p storage w
    ∙ off_lem storage.current p storage c
    ∙ ap (λ x. (apply_enabled false p, x)) (drop_legacy_lem storage w.removes)
    ∙ ap (λ v. (apply_enabled false p, record storage { legacy = v })) (sym l)

-- With a storage that works, reload takes the preference that the two entries mean and removes the
-- older entry, and a later reload, of whatever player, takes the same preference and changes nothing
-- in the storage.
pub reload_settles :
    (p later : Player) (storage : Storage)
    → Works storage
    → ((reload p storage).0.enabled ≡ preference storage.current storage.legacy)
      × ((reload p storage).1.legacy ≡ null)
      × ((reload later (reload p storage).1).0.enabled ≡ preference storage.current storage.legacy)
      × ((reload later (reload p storage).1).1 ≡ (reload p storage).1)
reload_settles p later storage w =
    go (preference storage.current storage.legacy) (reload-Holds p storage w)
  where
    go :
        (b : Bool)
        → Holds b (reload p storage)
        → ((reload p storage).0.enabled ≡ b)
          × ((reload p storage).1.legacy ≡ null)
          × ((reload later (reload p storage).1).0.enabled ≡ b)
          × ((reload later (reload p storage).1).1 ≡ (reload p storage).1)
    go true (e, s) =
        let again = Settled-kept true later (reload p storage).1 s in
        (e, s.1, rw again (apply_enabled_lem true later), ap (λ (x : Player × Storage). x.1) again)
    go false (e, s) =
        let again = Settled-kept false later (reload p storage).1 s in
        (e, s.1, rw again (apply_enabled_lem false later), ap (λ (x : Player × Storage). x.1) again)

-- If setEnabled says that a preference was stored, any later page that can read the storage has it.
pub set_enabled_survives :
    (b : Bool) (p q later : Player) (storage storage' : Storage)
    → set_enabled (bool b) p storage ≡ some (q, true, storage')
    → storage.get_throws ≡ false
    → storage.get_legacy_throws ≡ false
    → (reload later storage').0.enabled ≡ b
unfolding set_enabled reload same_text
set_enabled_survives true p q later storage storage' h r l = ground (arith, h, r, l)
set_enabled_survives false p q later storage storage' h r l = ground (arith, h, r, l)
