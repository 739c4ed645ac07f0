-- ===== src/Launcher/Config/Tests.antt =====
-- Origins in a variable, with blanks and an empty piece, and a development environment.
use modular_rust_platform.Base.{
  All, true, false, none, some, List, [], ◌∷◌, str_eq, if◌then◌else◌, ◌≡◌, refl, arith,
}
use modular_rust_platform.Base.Text.{Text, codes, trim}
use modular_rust_platform.Di.Context.{Environment}
use modular_rust_platform.Launcher.Config.{
  get_or_default, parse_csv, parse_csv_env, is_dev_environment, observability_config_from_env,
}
use modular_rust_platform.Launcher.Config.Lists.{IsItem, join, parse_csv_env-join}

abbrev environment : Environment
environment key =
    if str_eq key "CORS_ORIGINS"
    then some "a.com,b.com"
    else if str_eq key "RUST_ENV"
    then some "Development"
    else if str_eq key "MRP_OTEL_ENABLED"
    then some "yes"
    else none

abbrev items : List Text
items = codes "a.com" ∷ codes "b.com" ∷ []

items-IsItem : All IsItem items
unfolding trim
items-IsItem = (((λ e. cc), ground arith, refl), (((λ e. cc), ground arith, refl), tt))

parse_csv_env-join_example : parse_csv_env environment "CORS_ORIGINS" ≡ items
unfolding get_or_default join
parse_csv_env-join_example = parse_csv_env-join environment "CORS_ORIGINS" items items-IsItem refl

parse_csv-blanks : parse_csv (codes " a.com, ,b.com ,") ≡ items
unfolding parse_csv
parse_csv-blanks = refl

environment-read :
    (is_dev_environment false environment ≡ true)
    × ((observability_config_from_env (λ v. none) environment).enabled ≡ false)
unfolding is_dev_environment observability_config_from_env
environment-read = (refl, refl)
