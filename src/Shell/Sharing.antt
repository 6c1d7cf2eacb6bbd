-- ===== src/Shell/Sharing.antt =====
-- The two providers over one storage, in any run of the shell.
use asset_tracker.Prelude.{
  ℕ, ◌⊎◌, ◌≡◌, refl, ◌∙◌, ap, sym, true, false, not, Option, none, some, String, eq_iff, arith,
  is_some, Bool-cases, Option-cases, inl, inr,
}
use asset_tracker.Number.{Number}
use asset_tracker.Storage.{Storage, lookup-insert}
use asset_tracker.Auth.{logout, mount as mount_auth}
use asset_tracker.Auth.Laws.{stored, erased, after_guard-cases}
use asset_tracker.Auth.Guard.{Platform, Verdict, threw, passes, redirects, check_auth}
use asset_tracker.Auth.Session.{after_guard}
use asset_tracker.Settings.{
  Conversions, Settings, mount as mount_settings, update_health_interval, update_metrics_interval,
}
use asset_tracker.Settings.Panel
use asset_tracker.Settings.Panel.{
  Panel, closed, key_escape, saves, signs_out, saved_timeout, health_typed, metrics_typed, valid,
  save_intervals,
}
use asset_tracker.Shell.{
  navigate, with_storage, with_auth, saved_panel, update_layout, update_alone, update_in, AppLayout,
  App, Event, settings_click, bar_logout, retry, in_panel, elsewhere, is_login_page, arrive, load,
  start_app, handle_logout, update_panel, update,
}

-- What saving must leave alone in a storage.
pub record KeepsToken (s t : Storage) : Type 0 where
  pub same_token : stored t ≡ stored s
  pub same_access : t.denied ≡ s.denied

update_health_interval-KeepsToken :
    (c : Conversions) (n : Number) (s s' : Settings)
    → update_health_interval c n s ≡ some s'
    → KeepsToken s.storage s'.storage
unfolding update_health_interval
update_health_interval-KeepsToken c n s s' h = ground (
  arith,
  lookup-insert "healthInterval" "auth_token" (c.to_text n) s.storage.items,
  eq_iff "healthInterval" "auth_token",
)

update_metrics_interval-KeepsToken :
    (c : Conversions) (n : Number) (s s' : Settings)
    → update_metrics_interval c n s ≡ some s'
    → KeepsToken s.storage s'.storage
unfolding update_metrics_interval
update_metrics_interval-KeepsToken c n s s' h = ground (
  arith,
  lookup-insert "metricsInterval" "auth_token" (c.to_text n) s.storage.items,
  eq_iff "metricsInterval" "auth_token",
)

same : (s : Storage) → KeepsToken s s
same s = record { same_token = refl; same_access = refl }

both : {s t u : Storage} → KeepsToken s t → KeepsToken t u → KeepsToken s u
both h k = record {
  same_token = k.same_token ∙ h.same_token;
  same_access = k.same_access ∙ h.same_access;
}

save_intervals-KeepsToken :
    (c : Conversions) (p : Panel) (s : Settings)
    → KeepsToken s.storage (save_intervals c p s).1.storage
unfolding save_intervals
save_intervals-KeepsToken c p s = elim (Bool-cases (valid p)) [
  | inr bad ↦ rw bad (same s.storage)
  | inl good ↦ elim (Option-cases (update_health_interval c p.edit_health s)) [
    | inl fails ↦ rw (good, fails) (same s.storage)
    | inr (s1, first) ↦ elim (Option-cases (update_metrics_interval c p.edit_metrics s1)) [
      | inl fails ↦
          rw (good, first, fails) (update_health_interval-KeepsToken c p.edit_health s s1 first)
      | inr (s2, second) ↦
          rw (good, first, second)
            (both (update_health_interval-KeepsToken c p.edit_health s s1 first)
              (update_metrics_interval-KeepsToken c p.edit_metrics s1 s2 second))
    ]
  ]
]

-- Both providers see the same storage, which holds the token of the session.
pub record IsShared (a : App) : Type 0 where
  pub same_storage : a.settings.storage ≡ a.auth.storage
  pub open_storage : a.auth.storage.denied ≡ false
  pub token_agrees : (stored a.auth.storage ≡ none) ⊎ (stored a.auth.storage ≡ a.auth.token)
  pub layout_place : is_some a.layout ≡ not (is_login_page a.pathname)

module _ (c : Conversions) (p : Platform) where
  pub data Step (a : App) : App → Type 0 where
    handles : (e : Event) → Step a (update c e a).0
    goes : (now : ℕ) (pathname : String) → Step a (navigate p now pathname a)

  -- A page is loaded at an address, and the router then navigates to it.
  pub data Reachable : App → Type 0 where
    started :
        (storage : Storage) (now : ℕ) (pathname : String) (a : App)
        → start_app c storage pathname ≡ some a
        → Reachable (navigate p now pathname a)
    next : {a b : App} → Reachable a → Step a b → Reachable b

arrive-IsShared : (path : String) (a : App) → IsShared a → IsShared (arrive path a)
unfolding arrive is_login_page
arrive-IsShared path a h =
    ground (arith, h.same_storage, h.open_storage, h.token_agrees, h.layout_place)

guarded-IsShared :
    (p : Platform) (now : ℕ) (path : String) (a : App)
    → IsShared a
    → IsShared (with_storage (after_guard a.auth.storage (check_auth p now path a.auth.storage)) a)
guarded-IsShared p now path a h = ground (
  arith,
  after_guard-cases p now path a.auth.storage,
  erased a.auth.storage.items,
  h.same_storage,
  h.open_storage,
  h.token_agrees,
  h.layout_place,
)

navigate-IsShared :
    (p : Platform) (now : ℕ) (path : String) (a : App)
    → IsShared a
    → IsShared (navigate p now path a)
unfolding navigate
navigate-IsShared p now path a h =
    go (check_auth p now path a.auth.storage) (guarded-IsShared p now path a h)
  where
    go :
        (v : Verdict)
        → IsShared (with_storage (after_guard a.auth.storage v) a)
        → IsShared (elim v [
          | threw ↦ a
          | passes storage ↦ arrive path (with_storage storage a)
          | redirects to storage ↦ arrive to (with_storage storage a)
        ])
    go threw k = h
    go (passes storage) k = arrive-IsShared path (with_storage storage a) k
    go (redirects to storage) k = arrive-IsShared to (with_storage storage a) k

start_app-IsShared :
    (c : Conversions) (storage : Storage) (path : String) (a : App)
    → start_app c storage path ≡ some a
    → IsShared a
unfolding start_app load arrive is_login_page mount_auth mount_settings
start_app-IsShared c storage path a h = ground arith

logout-IsShared :
    (a : App) (layout : Option AppLayout)
    → is_some layout ≡ is_some a.layout
    → IsShared a
    → IsShared (record (with_auth (logout a.auth) a) { layout = layout })
unfolding logout
logout-IsShared a layout k h = ground (
  arith,
  erased a.auth.storage.items,
  h.same_storage,
  h.open_storage,
  h.token_agrees,
  h.layout_place,
)

-- A change that keeps the session, the settings, the address and whether there is a layout.
kept-IsShared :
    (a b : App)
    → b.auth ≡ a.auth
    → b.settings ≡ a.settings
    → b.pathname ≡ a.pathname
    → is_some b.layout ≡ is_some a.layout
    → IsShared a
    → IsShared b
kept-IsShared a b e f g k h = record {
  same_storage = simp (e, f) h.same_storage;
  open_storage = simp e h.open_storage;
  token_agrees = simp e h.token_agrees;
  layout_place = simp (g, k) h.layout_place;
}

saved-IsShared :
    (l : AppLayout) (a : App) (out : Panel × Settings)
    → KeepsToken a.settings.storage out.1.storage
    → is_some a.layout ≡ true
    → IsShared a
    → IsShared (saved_panel l a out)
saved-IsShared l a (p, s) kept k h =
    let before = kept.same_token ∙ ap stored h.same_storage in
    record {
      same_storage = refl;
      open_storage =
          kept.same_access ∙ ap (λ (t : Storage). t.denied) h.same_storage ∙ h.open_storage;
      token_agrees = elim h.token_agrees [
        | inl erased_before ↦ inl (before ∙ erased_before)
        | inr agrees ↦ inr (before ∙ agrees)
      ];
      layout_place = sym k ∙ h.layout_place;
    }

update_panel-IsShared :
    (c : Conversions) (e : Panel.Event) (l : AppLayout) (a : App)
    → is_some a.layout ≡ true
    → IsShared a
    → IsShared (update_panel c e l a).0
unfolding update_panel
update_panel-IsShared c closed l a k h = kept-IsShared a _ refl refl refl (sym k) h
update_panel-IsShared c key_escape l a k h = kept-IsShared a _ refl refl refl (sym k) h
update_panel-IsShared c saves l a k h =
    saved-IsShared l a _ (save_intervals-KeepsToken c l.panel a.settings) k h
update_panel-IsShared c signs_out l a k h = logout-IsShared a _ (sym k) h
update_panel-IsShared c saved_timeout l a k h = kept-IsShared a _ refl refl refl (sym k) h
update_panel-IsShared c (health_typed v) l a k h = kept-IsShared a _ refl refl refl (sym k) h
update_panel-IsShared c (metrics_typed v) l a k h = kept-IsShared a _ refl refl refl (sym k) h

update_layout-IsShared :
    (c : Conversions) (e : Event) (l : AppLayout) (a : App)
    → is_some a.layout ≡ true
    → IsShared a
    → IsShared (update_layout c e l a).0
unfolding handle_logout
update_layout-IsShared c settings_click l a k h = kept-IsShared a _ refl refl refl (sym k) h
update_layout-IsShared c bar_logout l a k h = logout-IsShared a a.layout refl h
update_layout-IsShared c retry l a k h = kept-IsShared a _ refl refl refl refl h
update_layout-IsShared c (in_panel e) l a k h = update_panel-IsShared c e l a k h
update_layout-IsShared c elsewhere l a k h = h

update_alone-IsShared : (e : Event) (a : App) → IsShared a → IsShared (update_alone e a).0
update_alone-IsShared retry a h = kept-IsShared a _ refl refl refl refl h
update_alone-IsShared e a h = h

update_in-IsShared :
    (c : Conversions) (e : Event) (a : App) (x : Option AppLayout)
    → a.layout ≡ x
    → IsShared a
    → IsShared (update_in c e a x).0
update_in-IsShared c e a none k h = update_alone-IsShared e a h
update_in-IsShared c e a (some l) k h = update_layout-IsShared c e l a (ap is_some k) h

module _ (c : Conversions) (p : Platform) where
  Step-IsShared : {a b : App} → Step c p a b → IsShared a → IsShared b
  unfolding update
  Step-IsShared {a} (goes now path) h = navigate-IsShared p now path a h
  Step-IsShared {a} (handles e) h = update_in-IsShared c e a a.layout refl h

  -- In every state that the shell reaches from a page load with the storage open, by its events and
  -- by navigations, each of them through the guard, in any order and at any time: the providers of
  -- session and settings see one storage, saving intervals and signing out included; it is open, and
  -- its token is the provider's, or it has none, as after the guard erased an expired one; and the
  -- layout is there exactly away from /login.
  pub Reachable-IsShared : {a : App} → Reachable c p a → IsShared a
  Reachable-IsShared (started storage now path a e) =
      navigate-IsShared p now path a (start_app-IsShared c storage path a e)
  Reachable-IsShared (next r st) = Step-IsShared st (Reachable-IsShared r)
