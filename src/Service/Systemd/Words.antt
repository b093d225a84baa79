-- ===== src/Service/Systemd/Words.antt =====
-- `ReadWritePaths` of internal/service/systemd.go: the directories of the line, read word by word.
use pulsitor_lan_agent.Base.{
  ◌≡◌, ◌≢◌, inl, inr, refl, sym, ap, subst, ◌∙◌, List, [], ◌∷◌, ◌++◌, if_split, ◌==◌, nat_eq, Text,
  text_eq, texts_eq, codes, beq_false→ne, int_eq, All, In,
}
use pulsitor_lan_agent.Discover.Table.{fields}
use pulsitor_lan_agent.Discover.Table.Rows.{IsWord, fields-one, fields-next}
use pulsitor_lan_agent.Service.{Definition, join}
use pulsitor_lan_agent.Service.Systemd.{
  Paths, state_path_from, writable, writable_iff, owner_lines, unit_lines,
}

fields-join : (texts : List Text) → All IsWord texts → fields (join (32 ∷ []) texts) ≡ texts
unfolding join fields
fields-join [] h = refl
fields-join (text ∷ []) h = fields-one text h.0
fields-join (text ∷ other ∷ rest) h =
    fields-next text (join (32 ∷ []) (other ∷ rest)) h.0
    ∙ ap (λ l. text ∷ l) (fields-join (other ∷ rest) h.1)

In-right : (a : Text) (xs ys : List Text) → In a ys → In a (xs ++ ys)
In-right a [] ys i = i
In-right a (x ∷ xs) ys i = inr (In-right a xs ys i)

-- The unit has a line `ReadWritePaths=` which, split at its blanks, names the directory.
abbrev pub Grants : Text → List Text → Type 0
Grants directory lines =
    (line : Text) × (In (codes "ReadWritePaths=" ++ line) lines × In directory (fields line))

module _ (paths : Paths) (config : Definition) (owner state_dir : Text) where
  writable-line :
      In
        (codes "ReadWritePaths=" ++ join (codes " ") (writable paths config state_dir))
        (unit_lines paths config owner state_dir)
  unfolding unit_lines
  writable-line = inr (
      inr (
        inr (
          inr (
            inr (
              inr (
                inr (
                  inr (
                    inr (
                      inr (
                        inr (
                          inr (
                            In-right _ (owner_lines owner) _ (
                              inr (
                                inr (
                                  inr (
                                    inr (
                                      inr (
                                        inr (
                                          inr (
                                            inr (
                                              inr (
                                                inr
                                                  (inr (inr (inr (inl refl))))))))))))))))))))))))))

  writable-AreWords :
      IsWord (paths.dir (state_path_from paths config state_dir))
      → (config.log_path ≢ [] → IsWord (paths.dir config.log_path))
      → All IsWord (writable paths config state_dir)
  unfolding writable
  writable-AreWords h k =
      let log = paths.dir config.log_path in
      let state = paths.dir (state_path_from paths config state_dir) in
      if_split (All IsWord) (config.log_path == []) _ _ (λ e. (h, tt))
        (λ e.
          if_split (All IsWord) (log == state) _ _ (λ e'. (h, tt))
            (λ e'. (h, (k (beq_false→ne config.log_path [] e), tt))))

  -- The unit grants the directory of the state file, when it and that of the log file have no blank.
  pub unit_lines-Grants :
      IsWord (paths.dir (state_path_from paths config state_dir))
      → (config.log_path ≢ [] → IsWord (paths.dir config.log_path))
      → Grants
          (paths.dir (state_path_from paths config state_dir))
          (unit_lines paths config owner state_dir)
  unit_lines-Grants h k =
      let named = writable paths config state_dir in
      let state = paths.dir (state_path_from paths config state_dir) in
      let i = (writable_iff paths config state_dir state).0.1 (inl refl) in
      (
        join (codes " ") named,
        (writable-line, subst (In state) (sym (fields-join named (writable-AreWords h k))) i),
      )
