-- ===== src/Handler/Core/Assets.antt =====
-- The asset callback is consulted at safe paths alone.
use leptos_wasi.Prelude.{◌≡◌, refl, ap, Option, none, some, Result, ok, err}
use leptos_wasi.Std.Str.{Bytes}
use leptos_wasi.StaticFiles.{normalize_static_path, StaticPathError}
use leptos_wasi.StaticFiles.Safety.{IsSafe, normalize_static_path-IsSafe}
use leptos_wasi.Http.{Http, Response}
use leptos_wasi.Handler.Core.{HandlerCore}
use leptos_wasi.Handler.Core.Files.{
  StaticRequest, PrefixUri, raw_path, asset_selection, serve_asset, claim_asset,
  static_files_handler_with,
}

module _ {F H Value Stream Router : Type 0} (map : Http H Value)
    (f g : StaticRequest Value → Option (Response H Stream))
    (agree : (request : StaticRequest Value) → IsSafe request.path → f request ≡ g request) where
  serve_asset-agree :
      (self : HandlerCore F (Response H Stream) H Router) (raw : Bytes)
      (normalized : Result Bytes StaticPathError)
      → normalize_static_path raw ≡ normalized
      → serve_asset map f self normalized ≡ serve_asset map g self normalized
  unfolding serve_asset
  serve_asset-agree self raw (err e) h = refl
  serve_asset-agree self raw (ok decoded) h =
      ap (asset_selection map self.method decoded) (agree _ (normalize_static_path-IsSafe raw h))

  -- Two asset callbacks that agree on the safe paths answer every request alike, for every prefix:
  -- no request, however its path is encoded, makes the handler consult a callback at any other path.
  pub static_files_handler_with-agree :
      (uri : Option PrefixUri) (self : HandlerCore F (Response H Stream) H Router)
      → static_files_handler_with map uri f self ≡ static_files_handler_with map uri g self
  unfolding static_files_handler_with claim_asset
  static_files_handler_with-agree none self = refl
  static_files_handler_with-agree (some uri) self =
      rw
        (serve_asset-agree self (raw_path uri.path self.path)
          (normalize_static_path (raw_path uri.path self.path)) refl)
        refl
