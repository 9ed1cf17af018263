-- ===== src/Lib.antt =====
-- The loaders of Software Heritage: swh/loader/core and swh/loader/package.
--
-- A loader visits an origin (a repository, a package, a file), fetches what is there, turns it into
-- objects of the archive, sends them to a storage, and records a visit with a status and a snapshot.
-- BaseLoader.load (swh/loader/core/loader.py) is the loop around the methods that a subclass
-- overrides; NodeLoader and its subclasses, in the same file, load one file or one directory, whose
-- hashes they check with Nar (swh/loader/core/nar.py) or while they download it (download of
-- swh/loader/core/utils.py). PackageLoader (swh/loader/package/loader.py) has a load of its own: it
-- lists the versions of a package, skips what the archive has already (by its ExtIDs), loads a
-- release for each other package, and builds a snapshot with a branch for each release.
--
-- Which file models which part:
--   Effects: Python's statements as functions from a state to a result and a state; the state
--   outlives an exception. Hoare, Reaches and Fuel have the rules to prove things of them.
--   Model: the data of swh.model that the loaders read and build. Storage: the object self.storage,
--   a record of operations over a world of any type; each call that writes, and each call of a method
--   that a subclass overrides, is put into a log, the latest first. Storage/Machine reads state
--   machines off that log.
--   Core/Base/Init: BaseLoader.__init__. Core/Base/Metadata: load_metadata_objects and
--   build_extrinsic_origin_metadata. Core/Base/Load: load, one function for each statement that has
--   handlers or is a loop.
--   Core/Node/Init, Fetch and Store: NodeLoader, ContentLoader, BaseDirectoryLoader and
--   TarballDirectoryLoader. fetch_artifact is a generator; it is modelled as a loop that runs the body
--   of the loop that consumes it, with the variables of both. Core/Node/Load puts the methods together
--   with BaseLoader.load: the state of the loader is the world on which load acts.
--   Core/Nar: Nar. The state is the bytes fed to the hash functions, which are parameters. Archive
--   describes the format as a function of an ordered tree, apart from the code.
--   Core/Utils: helpers of swh/loader/core/utils.py and swh/loader/core/converters.py.
--   Package/Info, Extids, Release, Metadata, Snapshot: the parts of PackageLoader; Package/Progress
--   has the local variables of its load, Package/Load the loop over the packages, Package/Visit the
--   rest of load, from the visit to its final status.
--   Package/Defaults: the methods of PackageLoader as far as the class itself gives them.
--   Forges: the loaders that fill those methods. Forges/Json is what json.loads gives, Forges/Text
--   has the operations of str, Forges/Lines what a text of several lines gives back, Forges/Person the
--   authors, Forges/Host what the loaders use of the network and the disk. Forges/Deposit, Pypi, Npm,
--   Debian, Crates, Opam, Archive, Maven, Rpm, Golang, Pubdev and Cran are
--   swh/loader/package/deposit/loader.py and its like, with the function names of the source. A
--   generator get_package_info is the list of what it yields; a method under cached_method reads and
--   writes a cache that the model takes. The tarballs that the loader of RPM finds in a package are
--   state (Tarballs), since build_release collects the branches that extra_branches gives later.
--   Samples, and the modules Samples below the components: concrete storages and loaders.
--
-- Numbers are natural numbers; times are numbers. Byte strings of the archive (identifiers, names of
-- branches) are texts, since the loaders only compare them and pass them on; the bytes that Nar
-- hashes are lists of numbers, and a text is encoded in UTF-8. A dict is an association list in
-- insertion order, a set a list without repetition. The only loop whose end depends on what is
-- called is `while True` in BaseLoader.load: it takes fuel, one for each round. If each round that
-- asks for another makes a measure smaller, as many as the measure of the first state and one more
-- are enough, and more change nothing (Core/Base/Load/Termination). The loop that looks for a free
-- branch name in generate_branch_name takes fuel too: one round more than names are taken is enough,
-- since the names that are tried are all different (Forges/Deposit/Unique).
--
-- Not modelled: metrics, log lines and the texts of errors that only log lines use; reading
-- configuration files; save_data; clean_dangling_folders, compute_nar_hashes and get_url_body; the
-- command line; the constructors that rewrite a URL in the loaders of Go modules and of pub.dev; the
-- loaders for Arch, AUR, Bioconductor, Conda, CPAN, Hackage, Hex, Puppet and RubyGems, which fill the
-- methods of PackageLoader in the same way; the arguments auth and timeout of download and the
-- retries around it, which repeat a request before download sees its answer. These are taken to be
-- total, though Python may raise in them: the encoding of a file name in UTF-8 (no surrogates), the
-- reading of a checksum of the arguments as bytes for an ExtID, and the hash functions for the names
-- of the checksums. The temporary directory of ContentLoader is opened and closed outside the
-- handlers of fetch_artifact, which take no error that it can raise. str of an exception that
-- another package raised is a parameter. The load that the loader of deposits overrides is a
-- parameter of its load_deposit; its finalize_visit is modelled apart from it. The network, the disk, the hash functions, the storage, swh.model and the parsers
-- of other packages are parameters.
pub mod Prelude
pub mod Effects
pub mod Model
pub mod Storage
pub mod Core
pub mod Package
pub mod Forges
pub mod Samples
