-- ===== src/Publishing/Blockage.antt =====
-- What one publication that cannot be loaded does to a claim.
use visoraft.Prelude.{
  ℕ, String, ◌≡◌, refl, Bool, true, none, some, List, [], ◌∷◌, ◌&&◌, not, str_eq, arith, exists,
  find, set_where, find-update, inl, inr, Bool-cases, ◌⊎◌, subst, sym, str_eq_iff, Option-cases,
  is_some,
}
use visoraft.Database.{
  Db, Account, Publication, Result, Error, ok, err, not_found, conflict, or_fail, MediaAsset,
  is_available, ◌>>=◌,
}
use visoraft.Publishing.Picks.{
  load_claimed_publication, load_each, claim_publications, claim_body, lock_picked,
  lock_publication, is_picked, picked_publications, mark_active, claim_mode_of,
}

-- An error.
abbrev Fails {ℓ} : {A : Type ℓ} → Result A → Type ℓ
Fails r = (e : Error) × (r ≡ err e)

module _ {ℓ κ} {A : Type ℓ} {B : Type κ} where
  bind-Fails : (r : Result A) (next : A → Result B) → Fails r → Fails (r >>= next)
  unfolding ◌>>=◌
  bind-Fails r next (e, h) = rw h (e, refl)

  next-Fails :
      (r : Result A) (next : A → Result B) → ((a : A) → Fails (next a)) → Fails (r >>= next)
  unfolding ◌>>=◌
  next-Fails (ok a) next h = h a
  next-Fails (err e) next h = (e, refl)

abbrev is_account : String → Account → Bool
is_account id a = str_eq a.id id && not (is_some a.archived_at)

abbrev is_media : String → MediaAsset → Bool
is_media id m = str_eq m.id id && is_available m.status

-- The publication's row, whose account is archived or missing, or whose medium is not there.
pub record IsStuck (id : String) (db : Db) : Type 0 where
  pub row : Publication
  pub read : find (λ p. str_eq p.id id) db.platform_publications ≡ some row
  pub lacks :
      (find (is_account row.account_id) db.platform_accounts ≡ none)
      ⊎ (find (is_media row.media_asset_id) db.media_assets ≡ none)

load-Fails :
    (id mode : String) (db : Db) → IsStuck id db → Fails (load_claimed_publication id mode db)
unfolding load_claimed_publication ◌>>=◌ or_fail
load-Fails id mode db stuck = rw stuck.read (elim stuck.lacks [
  | inl account ↦ rw account (not_found, refl)
  | inr media ↦ elim (Option-cases (find (is_account stuck.row.account_id) db.platform_accounts)) [
    | inl missing ↦ rw missing (not_found, refl)
    | inr (account, there) ↦ rw there (rw media (conflict "publish_media_unavailable", refl))
  ]
])

load_each-Fails :
    (id : String) (now : ℕ) (ps : List Publication) (db : Db)
    → exists (λ p. str_eq p.id id) ps ≡ true
    → IsStuck id db
    → Fails (load_each now ps db)
unfolding load_each mark_active exists
load_each-Fails id now [] db found stuck = cc
load_each-Fails id now (p ∷ ps) db found stuck = elim (Bool-cases (str_eq p.id id)) [
  | inl same ↦ bind-Fails (load_claimed_publication p.id (claim_mode_of p) db) _ (
      load-Fails p.id (claim_mode_of p) db
        (subst (λ x. IsStuck x db) (sym ((str_eq_iff _ _).0 same)) stuck))
  | inr other ↦ next-Fails (load_claimed_publication p.id (claim_mode_of p) db) _ (λ item.
      bind-Fails (load_each now ps (mark_active item now db)) _ (
        load_each-Fails id now ps _ (ground (arith, found, other))
          (record { row = stuck.row; read = stuck.read; lacks = stuck.lacks })))
]

locked-IsStuck :
    (id owner : String) (chosen : List Publication) (now : ℕ) (db : Db)
    → IsStuck id db
    → IsStuck id (lock_picked owner chosen now db)
locked-IsStuck id owner chosen now db stuck = record {
  row = set_where (is_picked chosen) (lock_publication owner now) stuck.row;
  read =
      rw
        (find-update (λ p. str_eq p.id id) (is_picked chosen) (lock_publication owner now)
          db.platform_publications (λ p. refl))
        (rw stuck.read refl);
  lacks = elim (Bool-cases (is_picked chosen stuck.row)) [
    | inl picked ↦ rw picked stuck.lacks
    | inr left ↦ rw left stuck.lacks
  ];
}

-- Where one of the publications that a claim picks has an archived or missing account, or no medium, the whole
-- claim fails: the worker gets nothing, and no table is changed.
pub claim_publications-blocked :
    (owner id : String) (limit : ℕ) (skipped : String → Bool) (now : ℕ) (db : Db)
    → exists (λ p. str_eq p.id id) (picked_publications limit skipped now db) ≡ true
    → IsStuck id db
    → (e : Error) × (claim_publications owner limit skipped now db ≡ (([], some e), db))
unfolding claim_publications claim_body
claim_publications-blocked owner id limit skipped now db picked stuck =
    let failed =
      load_each-Fails id now (picked_publications limit skipped now db) _ picked
        (locked-IsStuck id owner (picked_publications limit skipped now db) now db stuck) in
    (failed.0, rw failed.1 refl)
