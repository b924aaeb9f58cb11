-- ===== src/Config/File/Once.antt =====
-- The settings of an accepted file against its lines, key by key.
use qubes_core_qrexec.Prelude.{
  ◌≡◌, refl, sym, ap, ◌∙◌, ◌≢◌, inl, inr, true, false, none, some, List, [], ◌∷◌, ◌++◌, Bool-cases,
  Option-cases, All, Bytes,
}
use qubes_core_qrexec.Config.Value.{TomlValue}
use qubes_core_qrexec.Config.File.{
  Config, Seen, lines, Line, read_line, Key, wait_for_session, exit_on_client_eof,
  exit_on_service_eof, skip_service_descriptor, force_user, seen, see, State, set_key, parse_entry,
  parse_lines, none_seen, qubes_toml_config_parse,
}
use qubes_core_qrexec.Config.File.Keys.{
  Gives, current, meaning, line_key, Effect, nothing, setting, Sets, set-current, set-others,
  parse_entry-Effect, set_once-Sets,
}

see-seen : (k : Key) (f : Seen) → seen k (see k f) ≡ true
see-seen wait_for_session f = refl
see-seen exit_on_client_eof f = refl
see-seen exit_on_service_eof f = refl
see-seen skip_service_descriptor f = refl
see-seen force_user f = refl

see-keeps : (j k : Key) (f : Seen) → seen k f ≡ true → seen k (see j f) ≡ true
see-keeps wait_for_session wait_for_session f h = refl
see-keeps wait_for_session _ f h = h
see-keeps exit_on_client_eof exit_on_client_eof f h = refl
see-keeps exit_on_client_eof _ f h = h
see-keeps exit_on_service_eof exit_on_service_eof f h = refl
see-keeps exit_on_service_eof _ f h = h
see-keeps skip_service_descriptor skip_service_descriptor f h = refl
see-keeps skip_service_descriptor _ f h = h
see-keeps force_user force_user f h = refl
see-keeps force_user _ f h = h

parse_lines-cons :
    (l : Bytes) (ls : List Bytes) (s s' : State)
    → parse_lines (l ∷ ls) s ≡ some s'
    → (s1 : State) × (parse_entry (read_line l) s ≡ some s1) × (parse_lines ls s1 ≡ some s')
unfolding parse_lines
parse_lines-cons l ls s s' h = elim (Option-cases (parse_entry (read_line l) s)) [
  | inl e ↦ absurd (cc (rw (parse_lines, e) at h))
  | inr (s1, e) ↦ (s1, e, rw (parse_lines, e) at h)
]

parse_lines-append :
    (pre post : List Bytes) (s s' : State)
    → parse_lines (pre ++ post) s ≡ some s'
    → (s1 : State) × (parse_lines pre s ≡ some s1) × (parse_lines post s1 ≡ some s')
unfolding parse_lines
parse_lines-append [] post s s' h = (s, refl, h)
parse_lines-append (l ∷ pre) post s s' h =
    let (s1, e, h1) = parse_lines-cons l (pre ++ post) s s' h in
    let (s2, e2, h2) = parse_lines-append pre post s1 s' h1 in (s2, rw (parse_lines, e) e2, h2)

-- What a line leaves of a key that has been seen.
Effect-kept :
    (k : Key) (s s' : State) (l : Line)
    → Effect s s' l
    → seen k s.1 ≡ true
    → (current k s'.0 ≡ current k s.0) × (seen k s'.1 ≡ true) × (line_key l ≢ some k)
Effect-kept k s s' l (nothing n q) h =
    (ap (λ x. current k x.0) q, rw q h, λ e. let z : none ≡ some k = sym n ∙ e in cc z)
Effect-kept k s s' _ (setting {key = key} j v kq vq st) h =
    let ne : k ≢ j =
      (λ e. let z : true ≡ false = sym h ∙ (ap (λ x. seen x s.1) e ∙ st.fresh) in cc z) in
    (
      set-others j v s.0 s'.0 k st.sets ne,
      rw st.flags (see-keeps j k s.1 h),
      λ e. ne (let z : some j ≡ some k = sym kq ∙ e in cc z),
    )

kept :
    (ls : List Bytes) (k : Key) (s s' : State)
    → parse_lines ls s ≡ some s'
    → seen k s.1 ≡ true
    → (current k s'.0 ≡ current k s.0)
      × (seen k s'.1 ≡ true)
      × All (λ l. line_key (read_line l) ≢ some k) ls
unfolding parse_lines
kept [] k s s' h f = let q : s ≡ s' = cc h in rw (← q) (refl, f, tt)
kept (l ∷ ls) k s s' h f =
    let (s1, e, h1) = parse_lines-cons l ls s s' h in
    let (same, f1, apart) =
      Effect-kept k s s1 (read_line l) (parse_entry-Effect (read_line l) s s1 e) f in
    let (same', f', aparts) = kept ls k s1 s' h1 f1 in (same' ∙ same, f', (apart, aparts))

-- Lines that leave a key unseen do not name it.
unseen-line :
    (k : Key) (s s' : State) (l : Line) → Effect s s' l → seen k s'.1 ≡ false → line_key l ≢ some k
unseen-line k s s' l (nothing n q) h = λ e. let z : none ≡ some k = sym n ∙ e in cc z
unseen-line k s s' _ (setting {key = key} j v kq vq st) h = λ e.
    let z : some j ≡ some k = sym kq ∙ e in
    let p : j ≡ k = cc z in
    let t : true ≡ false =
      sym (see-seen j s.1) ∙ (ap (seen j) (sym st.flags) ∙ (ap (λ x. seen x s'.1) p ∙ h)) in
    cc t

unseen :
    (ls : List Bytes) (k : Key) (s s' : State)
    → parse_lines ls s ≡ some s'
    → seen k s'.1 ≡ false
    → All (λ l. line_key (read_line l) ≢ some k) ls
unfolding parse_lines
unseen [] k s s' h f = tt
unseen (l ∷ ls) k s s' h f =
    let (s1, e, h1) = parse_lines-cons l ls s s' h in
    (
      elim (Bool-cases (seen k s1.1)) [
        | inl t ↦
            absurd (
              let (same, f', a) = kept ls k s1 s' h1 t in let z : true ≡ false = sym f' ∙ f in cc z)
        | inr t ↦ unseen-line k s s1 (read_line l) (parse_entry-Effect (read_line l) s s1 e) t
      ],
      unseen ls k s1 s' h1 f,
    )

entry-Sets :
    (l : Bytes) (k : Key) (v : TomlValue) (s s' : State)
    → Gives l k v
    → parse_entry (read_line l) s ≡ some s'
    → Sets k v s s'
unfolding parse_entry set_key
entry-Sets l k v s s' g h =
    set_once-Sets k v s s' (rw (g.is_entry, parse_entry, set_key, g.is_value, g.is_key) at h)

-- The line that gives a key its value.
given :
    (ls : List Bytes) (l : Bytes) (k : Key) (v : TomlValue) (s s' : State)
    → Gives l k v
    → parse_lines (l ∷ ls) s ≡ some s'
    → (current k s'.0 ≡ meaning k v)
      × (seen k s.1 ≡ false)
      × All (λ l. line_key (read_line l) ≢ some k) ls
given ls l k v s s' g h =
    let (s1, e, h1) = parse_lines-cons l ls s s' h in
    let st = entry-Sets l k v s s1 g e in
    let (same, _, apart) = kept ls k s1 s' h1 (rw st.flags (see-seen k s.1)) in
    (same ∙ set-current k v s.0 s1.0 st.sets, st.fresh, apart)

-- In a file that is accepted, a line that gives a known key a value is the only one that names that key, and in the configuration that the parser returns the key has that value.
pub qubes_toml_config_parse-given :
    (file : Bytes) (c c' : Config) (pre post : List Bytes) (l : Bytes) (k : Key) (v : TomlValue)
    → qubes_toml_config_parse file c ≡ some c'
    → lines file ≡ pre ++ (l ∷ post)
    → Gives l k v
    → (current k c' ≡ meaning k v)
      × All (λ l'. line_key (read_line l') ≢ some k) pre
      × All (λ l'. line_key (read_line l') ≢ some k) post
unfolding qubes_toml_config_parse
qubes_toml_config_parse-given file c c' pre post l k v h q g =
    let start : Config = record c { wait_for_session = false; send_service_descriptor = true } in
    elim (Option-cases (parse_lines (lines file) (start, none_seen))) [
      | inl e ↦ absurd (cc (rw (qubes_toml_config_parse, e) at h))
      | inr (s', e) ↦
          let p : s'.0 ≡ c' = cc (rw (qubes_toml_config_parse, e) at h) in
          let (s1, e1, h1) = parse_lines-append pre (l ∷ post) (start, none_seen) s' (rw q at e) in
          let (val, fresh, after) = given post l k v s1 s' g h1 in
          (rw (← p) val, unseen pre k (start, none_seen) s1 e1 fresh, after)
    ]

Effect-unnamed :
    (k : Key) (s s' : State) (l : Line)
    → Effect s s' l
    → line_key l ≢ some k
    → current k s'.0 ≡ current k s.0
Effect-unnamed k s s' l (nothing n q) h = ap (λ x. current k x.0) q
Effect-unnamed k s s' _ (setting j v kq vq st) h =
    set-others j v s.0 s'.0 k st.sets (λ e. h (kq ∙ ap some (sym e)))

unnamed :
    (ls : List Bytes) (k : Key) (s s' : State)
    → parse_lines ls s ≡ some s'
    → All (λ l. line_key (read_line l) ≢ some k) ls
    → current k s'.0 ≡ current k s.0
unfolding parse_lines
unnamed [] k s s' h a = let q : s ≡ s' = cc h in rw (← q) refl
unnamed (l ∷ ls) k s s' h a =
    let (s1, e, h1) = parse_lines-cons l ls s s' h in
    unnamed ls k s1 s' h1 a.1
    ∙ Effect-unnamed k s s1 (read_line l) (parse_entry-Effect (read_line l) s s1 e) a.0

-- In a file that is accepted, a key that no line names keeps its default: false for `wait-for-session` and `skip-service-descriptor`, and what the caller had set for the other three.
pub qubes_toml_config_parse-default :
    (file : Bytes) (c c' : Config) (k : Key)
    → qubes_toml_config_parse file c ≡ some c'
    → All (λ l. line_key (read_line l) ≢ some k) (lines file)
    → current k c'
      ≡ current k (record c { wait_for_session = false; send_service_descriptor = true })
unfolding qubes_toml_config_parse
qubes_toml_config_parse-default file c c' k h a =
    let start : Config = record c { wait_for_session = false; send_service_descriptor = true } in
    elim (Option-cases (parse_lines (lines file) (start, none_seen))) [
      | inl e ↦ absurd (cc (rw (qubes_toml_config_parse, e) at h))
      | inr (s', e) ↦
          let p : s'.0 ≡ c' = cc (rw (qubes_toml_config_parse, e) at h) in
          rw (← p) (unnamed (lines file) k (start, none_seen) s' e a)
    ]
