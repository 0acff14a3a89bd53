-- ===== src/Plugin/Compat/Panel.antt =====
-- plugin/compat/synthesize.go and plugin/manifest_validate.go: the overlay of a legacy panel as a v1 manifest.
use opendray_v2_lab.Common.{
  ◌≡◌, ◌≢◌, ◌⊎◌, inl, inr, refl, sym, ◌∙◌, subst, Bool, true, false, [], ◌∷◌, none, Bytes, bytes_eq,
  bytes_beq_iff, codes, Bool-cases, ◌≤◌, arith,
}
use opendray_v2_lab.Go.Regexp.Classes.{every_wider}
use opendray_v2_lab.Go.Regexp.Language.{Lang, match_string_iff}
use opendray_v2_lab.Go.Regexp.{match_string}
use opendray_v2_lab.Go.Utf8.{rune_count}
use opendray_v2_lab.Plugin.ConfigSchema.Valid.{validate_config_schema-AllNew}
use opendray_v2_lab.Plugin.ConfigSchema.{among, validate_config_schema}
use opendray_v2_lab.Plugin.Contributions.{is_empty}
use opendray_v2_lab.Plugin.Manifest.Contributed.{view_ids}
use opendray_v2_lab.Plugin.Manifest.Empty.{is_empty_iff}
use opendray_v2_lab.Plugin.Manifest.{Provider, is_v1, effective_form, form_declarative}
use opendray_v2_lab.Plugin.Manifest.Accepted.{IsCommandId}
use opendray_v2_lab.Plugin.Manifest.Grammar.{
  is_name_byte, is_id_byte, re_activation, validate_name, validate_semver,
}
use opendray_v2_lab.Plugin.Manifest.Labels.{IsLabel, validate_name-IsLabel}
use opendray_v2_lab.Plugin.Manifest.Places.{IsContributes}
use opendray_v2_lab.Plugin.Manifest.Slots.{IsTitle}
use opendray_v2_lab.Plugin.Manifest.Validate.{forms, checks_host, validate_v1}
use opendray_v2_lab.Plugin.Manifest.Whole.{validate_v1-IsManifest, validate_semver_iff}
use opendray_v2_lab.Plugin.Compat.{
  title_of, no_contributes, with_panel, overlay, synthesize, add_view, add_item, panel_view,
}
use opendray_v2_lab.Plugin.Compat.Overlay.{with_panel-filled, effective_form-overlay}

label_is_id : (s : Bytes) → IsLabel 64 s → IsCommandId s
label_is_id [] h = absurd (cc h.first)
label_is_id (c ∷ s) h =
    ((λ e. cc e), every_wider is_id_byte is_name_byte (λ b e. ground (arith, e)) (c ∷ s) h.bytes)

builtin : IsLabel 40 (codes "opendray-builtin")
builtin = record { bytes = refl; short = omega arith; first = refl; last = refl }

on_startup : Lang re_activation (codes "onStartup")
on_startup = (match_string_iff (codes "onStartup") re_activation).0 run
  where
    run : match_string re_activation (codes "onStartup") ≡ true
    run = unfold match_string in refl

panel-IsContributes :
    (p : Provider)
    → p.provider_type ≡ codes "panel"
    → IsLabel 64 p.name
    → p.icon ≢ []
    → IsTitle 48 (title_of p)
    → IsContributes (with_panel p no_contributes)
panel-IsContributes p panel name icon title =
    subst IsContributes (sym (with_panel-filled p no_contributes panel)) (
      unfold add_view add_item in
      record {
        commands = tt;
        status_bar = tt;
        keybindings = tt;
        few_items = omega arith;
        activity_bar =
            (record { id = label_is_id p.name name; icon = icon; title = title; view = own }, tt);
        few_views = omega arith;
        views = (
          record {
            id = label_is_id p.name name;
            titled = (title.0, omega (arith, title.1));
            placed = inr refl;
            shown = inr refl;
            file = λ e. absurd (cc e);
          },
          tt,
        );
        few_panels = omega arith;
        panels = tt;
        editor_actions = tt;
        few_actions = omega arith;
        session_actions = tt;
      })
  where
    own : (p.name ≡ []) ⊎ (among p.name (view_ids (panel_view p ∷ [])) ≡ true)
    own = elim (Bool-cases (is_empty p.name)) [
      | inl unset ↦ inl ((is_empty_iff p.name).0 unset)
      | inr given ↦ inr (rw (given, (bytes_beq_iff p.name p.name).1 refl) refl)
    ]

panel_form :
    (p : Provider)
    → p.provider_type ≡ codes "panel"
    → p.form ≡ []
    → effective_form p ≡ form_declarative
unfolding effective_form
panel_form p panel no_form = rw (no_form, panel) refl

declared :
    (p : Provider)
    → p.provider_type ≡ codes "panel"
    → p.form ≡ []
    → among (effective_form p) forms ≡ true
declared p panel no_form = rw (panel_form p panel no_form) refl

no_host :
    (p : Provider) → p.provider_type ≡ codes "panel" → p.form ≡ [] → checks_host (overlay p) ≡ false
no_host p panel no_form =
    let form = effective_form-overlay p ∙ panel_form p panel no_form in
    unfold checks_host in rw form refl

-- The overlay of a legacy panel that sets no form and adds no contributions of its own is an accepted v1
-- manifest on every platform, when its name and its version pass, it has an icon and a title of at most 48
-- characters, and its configuration schema is in order.
pub validate_v1-synthesize :
    (quoted : Bytes → Bytes) (allowed : Bool) (p : Provider)
    → is_v1 p ≡ false
    → p.provider_type ≡ codes "panel"
    → p.form ≡ []
    → p.contributes ≡ none
    → validate_name p.name ≡ none
    → validate_semver p.version ≡ none
    → p.icon ≢ []
    → (title_of p ≢ []) × (rune_count (title_of p) ≤ 48)
    → validate_config_schema p.config_schema ≡ []
    → validate_v1 quoted allowed (synthesize p) ≡ []
unfolding synthesize
validate_v1-synthesize quoted allowed p legacy panel no_form bare name version icon title schema =
    let own : IsLabel 64 p.name = (validate_name-IsLabel p.name).0.0 name in
    rw legacy (
      (validate_v1-IsManifest quoted allowed (overlay p)).1 (λ _.
        unfold overlay in
        record {
          name = own;
          publisher = builtin;
          version = (validate_semver_iff p.version).0 version;
          engines = refl;
          form = inr (declared p panel no_form);
          activation = (on_startup, tt);
          contributes = rw bare (panel-IsContributes p panel own icon title);
          permissions = tt;
          host = λ h. absurd (cc (h, no_host p panel no_form));
          config_schema = (validate_config_schema-AllNew p.config_schema).0 schema;
        }))
