-- ===== src/Services/Configs.antt =====
-- The configuration files that the controllers render: the Go templates of Glauth's
-- `ensureConfigMap` and of Dex's `ensureConfigSecret`, line by line.
use ninekube.Prelude.{String, ◌<>◌, List, [], ◌∷◌}

-- Each line with its line feed.
unfoldable pub unlines : List String → String
unlines [] = ""
unlines (line ∷ rest) = line <> "\n" <> unlines rest

unfoldable pub glauth_lines : String → String → List String
glauth_lines pg_pass base_dn =
    "[backend]"
    ∷ "  datastore = \"plugin\""
    ∷ "  plugin = \"/app/postgres.so\""
    ∷ "  pluginhandler = \"NewPostgresHandler\""
    ∷ ("  database = \"host=postgresql port=5432 user=root password=" <> pg_pass
        <> " dbname=ninegate sslmode=disable\"")
    ∷ ("  baseDN = \"" <> base_dn <> "\"")
    ∷ ""
    ∷ "[ldap]"
    ∷ "  enabled = true"
    ∷ "  listen = \"0.0.0.0:3893\""
    ∷ "  tls = false"
    ∷ ""
    ∷ "[ldaps]"
    ∷ "  enabled = true"
    ∷ "  listen = \"0.0.0.0:636\""
    ∷ "  tls = true"
    ∷ "  cert = \"/etc/glauth/tls/tls.crt\""
    ∷ "  key = \"/etc/glauth/tls/tls.key\""
    ∷ ""
    ∷ "[behaviors]"
    ∷ "  IgnoreCapabilities = true"
    ∷ "  LimitFailedBinds = true"
    ∷ "  NumberOfFailedBinds = 3"
    ∷ "  PeriodOfFailedBinds = 10"
    ∷ "  BlockFailedBindsFor = 60"
    ∷ "  PruneSourceTableEvery = 600"
    ∷ "  PruneSourcesOlderThan = 600"
    ∷ []

unfoldable pub glauth_config : String → String → String
unfolding unlines glauth_lines
glauth_config pg_pass base_dn = unlines (glauth_lines pg_pass base_dn)

unfoldable pub dex_lines : String → String → String → String → String → String → List String
dex_lines domain base_dn admin_pass ninegate_secret nextcloud_secret tfm_secret =
    ("issuer: https://dex." <> domain)
    ∷ ""
    ∷ "storage:"
    ∷ "  type: sqlite3"
    ∷ "  config:"
    ∷ "    file: /var/dex/dex.db"
    ∷ ""
    ∷ "web:"
    ∷ "  https: 0.0.0.0:5556"
    ∷ "  tlsCert: /etc/dex/tls/tls.crt"
    ∷ "  tlsKey: /etc/dex/tls/tls.key"
    ∷ ""
    ∷ "oauth2:"
    ∷ "  responseTypes: [\"code\", \"token\", \"id_token\"]"
    ∷ "  skipApprovalScreen: true"
    ∷ "  alwaysShowLoginScreen: false"
    ∷ "  passwordConnector: local"
    ∷ ""
    ∷ "expiry:"
    ∷ "  deviceRequests: \"5m\""
    ∷ "  idTokens: \"24h\""
    ∷ "  authRequests: \"24h\""
    ∷ ""
    ∷ "signer:"
    ∷ "  type: local"
    ∷ "  config:"
    ∷ "    keysRotationPeriod: \"6h\""
    ∷ "    algorithm: RS256"
    ∷ ""
    ∷ "enablePasswordDB: false"
    ∷ ""
    ∷ "connectors:"
    ∷ "  - type: ldap"
    ∷ "    name: LDAP"
    ∷ "    id: ldap"
    ∷ "    config:"
    ∷ ("      host: glauth." <> domain <> ":3893")
    ∷ "      insecureNoSSL: true"
    ∷ "      insecureBindNoSSL: true"
    ∷ ("      bindDN: \"cn=admin,ou=all," <> base_dn <> "\"")
    ∷ ("      bindPW: \"" <> admin_pass <> "\"")
    ∷ "      userSearch:"
    ∷ ("        baseDN: \"ou=users," <> base_dn <> "\"")
    ∷ "        filter: \"(objectClass=posixAccount)\""
    ∷ "        username: cn"
    ∷ "        idAttr: cn"
    ∷ "        emailAttr: mail"
    ∷ "        nameAttr: cn"
    ∷ "      groupSearch:"
    ∷ ("        baseDN: \"ou=groups," <> base_dn <> "\"")
    ∷ "        filter: \"(objectClass=groupOfNames)\""
    ∷ "        userMatchers:"
    ∷ "          - userAttr: DN"
    ∷ "            groupAttr: member"
    ∷ "        nameAttr: cn"
    ∷ ""
    ∷ "staticClients:"
    ∷ "  - id: ninegate"
    ∷ ("    secret: \"" <> ninegate_secret <> "\"")
    ∷ "    name: Ninegate"
    ∷ "    redirectURIs:"
    ∷ ("      - \"https://ninegate." <> domain <> "/callback\"")
    ∷ "  - id: nextcloud"
    ∷ ("    secret: \"" <> nextcloud_secret <> "\"")
    ∷ "    name: Nextcloud"
    ∷ "    redirectURIs:"
    ∷ ("      - \"https://nextcloud." <> domain <> "/index.php/login/via oidc_login/\"")
    ∷ "  - id: tinyfilemanager"
    ∷ ("    secret: \"" <> tfm_secret <> "\"")
    ∷ "    name: Tiny File Manager"
    ∷ "    redirectURIs:"
    ∷ ("      - \"https://files." <> domain <> "/oauth2/callback\"")
    ∷ []

unfoldable pub dex_config : String → String → String → String → String → String → String
unfolding unlines dex_lines
dex_config domain base_dn admin_pass ninegate_secret nextcloud_secret tfm_secret =
    unlines (dex_lines domain base_dn admin_pass ninegate_secret nextcloud_secret tfm_secret)
