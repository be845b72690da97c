-- ===== src/Cli/Build/Context.antt =====
-- What `build` leaves of its context, and when it returns.
use vignemale.Cli.Build.{
  BuildOptions, Host, base_of, build, build_command, build_in, clean_up, fill_context, run_build,
  tag_of,
}
use vignemale.Gdpr.{after}
use vignemale.Prelude.{
  Bool, Bool-cases, ap, false, if◌then◌else◌, inl, inr, nat_eq, opt_eq, pair_eq, refl, sym, true,
  ◌==◌, ◌∙◌, ◌≡◌,
}
use vignemale.Prelude.Text.{Text, codes, text_eq}
use vignemale.Python.{Result, and_then-ok, ok, ok-injective, raise-ne-ok}
use vignemale.Python.Env.{Env}

else_of : {A : Type 0} (b : Bool) (x y z : A) → b ≡ false → (if b then x else y) ≡ z → y ≡ z
else_of b x y z h e = rw h at e

module _ (H : Host) (env : Env) (here : Text) where
  cleaned :
      (keeps : Bool) (ctx : Text) (x : Result Text × H.State)
      → keeps ≡ false
      → clean_up H env here keeps ctx x ≡ (x.0, H.remove_tree ctx x.1)
  unfolding clean_up
  cleaned keeps ctx x h = rw h refl

  -- Unless the context is kept for `--print`, `build` removes it, whether it returns or raises.
  pub build-removes :
      (o : BuildOptions) (app_path ctx : Text) (s s1 : H.State)
      → ((p : Text) (u : H.State) → H.is_dir p (H.remove_tree p u) ≡ false)
      → o.print_only ≡ false
      → H.temp_dir (codes "vignemale-build-") s ≡ (ok ctx, s1)
      → H.is_dir ctx (build H env here o app_path s).1 ≡ false
  unfolding build
  build-removes o app_path ctx s s1 removes building made =
      let x =
        build_in H env here o (base_of H env here o) (tag_of H env here o app_path) app_path ctx
          s1 in
      rw made (ap (λ r. H.is_dir ctx r.1) (cleaned o.print_only ctx x building) ∙ removes ctx x.1)

  run_build-ok :
      (o : BuildOptions) (base tag ctx t : Text) (s s' : H.State)
      → run_build H env here o base tag ctx s ≡ (ok t, s')
      → (H.has_docker ≡ true)
        × (t ≡ tag)
        × ((H.run (build_command tag o.platform o.push ctx) s).0 ≡ 0)
        × ((H.run (build_command tag o.platform o.push ctx) s).1 ≡ s')
  unfolding run_build
  run_build-ok o base tag ctx t s s' h = elim (Bool-cases H.has_docker) [
    | inr absent ↦ absurd (raise-ne-ok (ap (λ r. r.0) (rw absent at h)))
    | inl installed ↦
        elim (Bool-cases ((H.run (build_command tag o.platform o.push ctx) s).0 == 0)) [
          | inr failing ↦ absurd (raise-ne-ok (ap (λ r. r.0) (rw failing at (rw installed at h))))
          | inl built ↦
              let returned : (ok tag, (H.run (build_command tag o.platform o.push ctx) s).1)
                  ≡ (ok t, s') =
                rw built at (rw installed at h) in
              (
                installed,
                sym (ok-injective (ap (λ r. r.0) returned)),
                (nat_eq.beq_iff _ 0).0 built,
                ap (λ r. r.1) returned,
              )
        ]
  ]

  build_in-ok :
      (o : BuildOptions) (base tag app_path ctx t : Text) (s s' : H.State)
      → o.print_only ≡ false
      → build_in H env here o base tag app_path ctx s ≡ (ok t, s')
      → (H.has_docker ≡ true)
        × (t ≡ tag)
        × ((u : H.State) × ((H.run (build_command t o.platform o.push ctx) u).0 ≡ 0)
            × ((H.run (build_command t o.platform o.push ctx) u).1 ≡ s'))
  unfolding build_in
  build_in-ok o base tag app_path ctx t s s' building h =
      let (text, filled, turn) =
        and_then-ok (fill_context H env here o base app_path ctx s) _ t s' h in
      let u = (fill_context H env here o base app_path ctx s).1 in
      let (installed, same, code, after) =
        run_build-ok o base tag ctx t u s' (else_of o.print_only _ _ (ok t, s') building turn) in
      (
        installed,
        same,
        (
          u,
          ap (λ g. (H.run (build_command g o.platform o.push ctx) u).0) same ∙ code,
          ap (λ g. (H.run (build_command g o.platform o.push ctx) u).1) same ∙ after,
        ),
      )

  -- If `build` returns and is not to print, Docker is there, the command for the returned tag, the
  -- platform and the push has ended with code 0, and after it the context is removed.
  pub build-ok :
      (o : BuildOptions) (app_path t : Text) (s s' : H.State)
      → o.print_only ≡ false
      → build H env here o app_path s ≡ (ok t, s')
      → (H.has_docker ≡ true)
        × (t ≡ tag_of H env here o app_path)
        × ((ctx : Text) × (u : H.State) × ((H.run (build_command t o.platform o.push ctx) u).0 ≡ 0)
            × (s' ≡ H.remove_tree ctx (H.run (build_command t o.platform o.push ctx) u).1))
  unfolding build
  build-ok o app_path t s s' building h =
      let (ctx, made, rest) = and_then-ok (H.temp_dir (codes "vignemale-build-") s) _ t s' h in
      let x =
        build_in H env here o (base_of H env here o) (tag_of H env here o app_path) app_path ctx
          (H.temp_dir (codes "vignemale-build-") s).1 in
      let ends : (x.0, H.remove_tree ctx x.1) ≡ (ok t, s') =
        sym (cleaned o.print_only ctx x building) ∙ rest in
      let (installed, same, (u, code, after)) =
        build_in-ok o (base_of H env here o) (tag_of H env here o app_path) app_path ctx t
          (H.temp_dir (codes "vignemale-build-") s).1 x.1 building (λ i. ((ends i).0, x.1)) in
      (
        installed,
        same,
        (ctx, u, code, ap (λ r. r.1) (sym ends) ∙ ap (λ v. H.remove_tree ctx v) (sym after)),
      )
