-- ===== src/Server/NodeJs/Prescript.antt =====
-- runtime/prescript.js, the template that server/src/services/nodejs.rs includes.
use sand_box_rust.Base.{ℕ, List, [], ◌∷◌, ◌++◌, concat, map, codes}
use sand_box_rust.Server.Template.{Place, Piece, text, place}

-- A line with its end.
abbrev line : List ℕ → List ℕ
line s = s ++ 10 ∷ []

abbrev pub prescript_lines : List (List ℕ)
prescript_lines =
    codes "let argv = process.argv"
    ∷ []
    ∷ codes "let koffi = require('koffi')"
    ∷ []
    ∷ codes "process.chdir(argv[2])"
    ∷ []
    ∷ codes "let lib = koffi.load(\"./libnodejs.so\")"
    ∷ codes
        "/** @type {(uid: number, gid: number, enableNetwork: boolean, maxAs: number, privilege: boolean) => number} */"
    ∷ codes "let initSeccomp = lib.func('int init_seccomp(int, int, bool, uint64_t, bool)')"
    ∷ codes "/** @type {(path: string) => number} */"
    ∷ codes "let applyLandlock = lib.func('int apply_landlock_one(char*)')"
    ∷ []
    ∷ codes "let uid = parseInt(argv[3])"
    ∷ codes "let gid = parseInt(argv[4])"
    ∷ []
    ∷ codes "let options = JSON.parse(argv[5])"
    ∷ []
    ∷ codes "let privilege = options['privilege'] !== false"
    ∷ codes "if (!privilege) {"
    ∷ codes "    let ll_rc = applyLandlock(argv[2])"
    ∷ codes "    if (ll_rc !== 0) {"
    ∷ codes "        throw `Landlock failed - ${ll_rc}`"
    ∷ codes "    }"
    ∷ codes "}"
    ∷ codes "// Force initialization of stdout/stderr streams before seccomp blocks ioctl."
    ∷ codes "// Node.js lazily creates these SyncWriteStream wrappers on first access; the"
    ∷ codes "// internal setup calls ioctl(fd, TCGETS) to check TTY status.  Doing it now"
    ∷ codes "// ensures user code can write to stdout/stderr after seccomp is applied."
    ∷ codes "void process.stdout.isTTY"
    ∷ codes "void process.stderr.isTTY"
    ∷ []
    ∷ codes
        "let seccomp_init = initSeccomp(uid, gid, options['enable_network'], options['max_as'], privilege)"
    ∷ codes "if (seccomp_init !== 0) {"
    ∷ codes "    throw `code executor err - ${seccomp_init}`"
    ∷ codes "}"
    ∷ []
    ∷ codes "delete process.argv"
    ∷ codes "argv = undefined"
    ∷ codes "koffi = undefined"
    ∷ codes "lib = undefined"
    ∷ codes "initSeccomp = undefined"
    ∷ codes "applyLandlock = undefined"
    ∷ codes "uid = undefined"
    ∷ codes "gid = undefined"
    ∷ codes "options = undefined"
    ∷ codes "seccomp_init = undefined"
    ∷ []
    ∷ []

-- Its only place is that of the code, on the last line.
abbrev pub prescript : List Piece
prescript = text (concat (map line prescript_lines)) ∷ place Place.code ∷ text (10 ∷ []) ∷ []
