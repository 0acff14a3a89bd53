-- ===== src/Gateway/Assets/Tests.antt =====
-- Requests for the files of a plugin, and an instance of what is proved of them.
use opendray_v2_lab.Common.{◌≡◌, refl, true, [], Option, none, some, Bytes, codes}
use opendray_v2_lab.Go.Path.{is_abs}
use opendray_v2_lab.Go.Path.Relative.{clean_relative}
use opendray_v2_lab.Gateway.Assets.{
  present, Files, bad_path, served, version_of, validate_asset_fragment, ui_root, defaulted,
  assets_handler,
}
use opendray_v2_lab.Gateway.Assets.Confined.{Serves, assets_handler-Serves}

abbrev files : Files
files = record {
  stat = λ path. present;
  opens = λ path. true;
  rel = λ root path. some (codes "x");
  mime_of = λ e. [];
}

abbrev registered : Bytes → Option Bytes
registered name = some (codes "1.0.0")

index :
    assets_handler files registered (codes "/data") (codes "clock") (codes "a/../b.HTML")
    ≡ served
        (codes "/data/clock/1.0.0/ui/b.HTML")
        (codes "text/html; charset=utf-8")
        (codes "no-store")
unfolding assets_handler
index = refl

traversal :
    assets_handler files registered (codes "/data") (codes "clock") (codes "a/../../b") ≡ bad_path
unfolding assets_handler
traversal = refl

assets_handler-Serves_example :
    (version : Bytes) × (version_of (registered (codes "clock")) ≡ some version)
    × (validate_asset_fragment (defaulted (codes "a/../b.HTML")) ≡ none)
    × Serves files
        (ui_root (codes "/data") (codes "clock") version)
        (clean_relative (defaulted (codes "a/../b.HTML")))
        (codes "/data/clock/1.0.0/ui/b.HTML")
        (codes "text/html; charset=utf-8")
        (codes "no-store")
assets_handler-Serves_example =
    assets_handler-Serves files registered (codes "/data") (codes "clock") (codes "a/../b.HTML")
      (codes "/data/clock/1.0.0/ui/b.HTML") (codes "text/html; charset=utf-8") (codes "no-store")
      (unfold is_abs in refl) index
