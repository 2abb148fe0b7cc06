-- ===== src/Blackout/Rules.antt =====
-- The predicate, and what a handler has to show: the row that it writes is another one.
use crm_mcd.Prelude.{
  ℕ, ◌≡◌, ◌≢◌, Bool, true, false, some, List, arith, any, find-update_ne, any-update_where-false,
  update_where, UniqueKeys, update-UniqueKeys, ne_of_rows, find-own_key, ◌⊎◌, inl, inr, ◌∙◌, ap,
}
use crm_mcd.Lead.{Lead, Callback, Crm}
use crm_mcd.Lead.Table.{lead_key, find_lead, update_lead, scheduled_on, is_scheduled}

-- The Lead `i` is blocked and reads `l`, and no callback is scheduled on it.
pub record IsBlackout (i : ℕ) (l : Lead) (s : Crm) : Type 0 where
  pub blocked : l.dnc ≡ true
  pub stopped : l.suppressed ≡ true
  pub found : find_lead i s.leads ≡ some l
  pub unique : UniqueKeys lead_key s.leads
  pub unscheduled : any (scheduled_on i) s.callbacks ≡ false

differs :
    (l m : Lead)
    → l.dnc ≡ true
    → l.suppressed ≡ true
    → (m.dnc ≡ false) ⊎ (m.suppressed ≡ false)
    → l ≢ m
differs l m d u (inl e) same = cc (ap (λ (x : Lead). x.dnc) same)
differs l m d u (inr e) same = cc (ap (λ (x : Lead). x.suppressed) same)

-- A Lead that is not blocked is another row.
pub other_row :
    (i : ℕ) (l m : Lead) (s : Crm)
    → IsBlackout i l s
    → (m.dnc ≡ false) ⊎ (m.suppressed ≡ false)
    → find_lead m.id s.leads ≡ some m
    → i ≢ m.id
other_row i l m s b free e =
    ne_of_rows lead_key i m.id l m s.leads (λ same. differs l m b.blocked b.stopped free same)
      b.found e

-- So is one that was looked up by an id.
pub ne_of_free :
    (i j : ℕ) (l m : Lead) (s : Crm)
    → IsBlackout i l s
    → (m.dnc ≡ false) × (find_lead j s.leads ≡ some m)
    → i ≢ m.id
ne_of_free i j l m s b h = other_row i l m s b (inl h.0) (find-own_key lead_key j s.leads m h.1)

-- A database with the same Leads and callbacks.
pub IsBlackout-same :
    (i : ℕ) (l : Lead) (s t : Crm)
    → IsBlackout i l s
    → t.leads ≡ s.leads
    → t.callbacks ≡ s.callbacks
    → IsBlackout i l t
IsBlackout-same i l s t b e e' = record {
  blocked = b.blocked;
  stopped = b.stopped;
  found = rw e b.found;
  unique = rw e b.unique;
  unscheduled = rw e' b.unscheduled;
}

-- A write to another Lead, with callbacks that schedule nothing on this one.
pub IsBlackout-write :
    (i j : ℕ) (l : Lead) (f : Lead → Lead) (s t : Crm)
    → IsBlackout i l s
    → ((m : Lead) → (f m).id ≡ m.id)
    → i ≢ j
    → t.leads ≡ update_lead j f s.leads
    → any (scheduled_on i) t.callbacks ≡ false
    → IsBlackout i l t
IsBlackout-write i j l f s t b same ne e none_due = record {
  blocked = b.blocked;
  stopped = b.stopped;
  found = rw e (find-update_ne lead_key i j f s.leads same ne ∙ b.found);
  unique = rw e (update-UniqueKeys lead_key j f s.leads same b.unique);
  unscheduled = none_due;
}

-- A change that schedules nothing, and keeps the Lead of each callback.
pub unscheduled-update_where :
    (i : ℕ) (p : Callback → Bool) (f : Callback → Callback) (cs : List Callback)
    → ((c : Callback) → (f c).lead_id ≡ c.lead_id)
    → ((c : Callback) → is_scheduled c.status ≡ false → is_scheduled (f c).status ≡ false)
    → any (scheduled_on i) cs ≡ false
    → any (scheduled_on i) (update_where p f cs) ≡ false
unscheduled-update_where i p f cs same quiet h =
    any-update_where-false (scheduled_on i) p f cs (λ c e. ground (arith, same c, quiet c)) h
