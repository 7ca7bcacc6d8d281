-- ===== src/Layout.antt =====
-- src/lib.rs and src/stack.rs: the fixed paths inside a guest.
use pve_compose.Base.{Text, codes}

abbrev pub stack_dir : Text
stack_dir = codes "/opt/stack"

abbrev pub volumes_dir : Text
volumes_dir = codes "/opt/stack/volumes"

abbrev pub facts_dir : Text
facts_dir = codes "/opt/stack/.pve-compose"

abbrev pub compose_file : Text
compose_file = codes "/opt/stack/compose.yaml"

abbrev pub facts_file : Text
facts_file = codes "/opt/stack/.pve-compose/applied.yaml"
